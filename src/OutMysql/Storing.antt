-- ===== src/OutMysql/Storing.antt =====
-- What is sent for an update or an insert, and what the call returns.
use edysquelch.Prelude.{
  ◌≡◌, ◌⊎◌, true, false, ◌&&◌, List, [], ◌∷◌, ◌++◌, if◌then◌else◌, All, ℤ, pos, negsuc, ltb_ℤ,
  Bytes, refl, inl, inr, Bool-cases, sym, subst, arith,
}
use edysquelch.OutMysql.Purges.{query-inserts}
use edysquelch.OutMysql.{
  Mysql, Database, Limits, myout_connect, myout_reconnect, run_query, myout_insert,
  myout_update_or_insert,
}

-- The statements before the last, and the last: the insert alone where small tables are not kept,
-- else the update alone where it failed or changed a row, else the update and the insert.
abbrev pub Sends : Database → Limits → Bytes → Bytes → List Bytes → Bytes → Type 0
Sends db limits upd ins before last =
    ((limits.keepsmall ≡ false) × (before ≡ []) × (last ≡ ins))
    ⊎ (((limits.keepsmall ≡ true)
          × (before ≡ [])
          × (last ≡ upd)
          × ((db.fails upd ≡ true) ⊎ (ltb_ℤ (pos 0) (db.affected upd) ≡ true)))
        ⊎ ((limits.keepsmall ≡ true)
            × (before ≡ upd ∷ [])
            × (last ≡ ins)
            × (ltb_ℤ (pos 0) (db.affected upd) ≡ false)))

-- The statements of a call: all but the last succeeded, and the value returned and the state are
-- those of the last.
pub record Stores (db : Database) (limits : Limits) (upd ins : Bytes) (my : Mysql)
    (r : Mysql × List Bytes × ℤ) : Type 0 where
  pub before : List Bytes
  pub last : Bytes
  pub sent : r.1 ≡ before ++ (last ∷ [])
  pub sends : Sends db limits upd ins before last
  pub done_before : All (λ q. db.fails q ≡ false) before
  pub returns : r.2 ≡ (if db.fails last then negsuc 0 else pos 0)
  pub same_count : r.0.inserts ≡ my.inserts
  pub connection :
      r.0.connected ≡ (if db.fails last && db.server_gone last then db.connects else my.connected)
  pub is_stored :
      r.2 ≡ pos 0 → (last ≡ ins) ⊎ ((last ≡ upd) × (ltb_ℤ (pos 0) (db.affected upd) ≡ true))

connect-connected : (db : Database) (my : Mysql) → (myout_connect db my).0.connected ≡ db.connects
unfolding myout_connect
connect-connected db my = elim (Bool-cases db.connects) [ inl y ↦ rw y refl | inr n ↦ rw n refl ]

query-returns :
    (db : Database) (q : Bytes) (my : Mysql)
    → (run_query db q my).1 ≡ (if db.fails q then negsuc 0 else pos 0)
unfolding run_query
query-returns db q my = elim (Bool-cases (db.fails q)) [
  | inl failed ↦ simp failed refl
  | inr fine ↦ simp fine refl
]

query-connected :
    (db : Database) (q : Bytes) (my : Mysql)
    → (run_query db q my).0.connected
      ≡ (if db.fails q && db.server_gone q then db.connects else my.connected)
unfolding run_query myout_reconnect
query-connected db q my = elim (Bool-cases (db.fails q)) [
  | inr fine ↦ simp fine refl
  | inl failed ↦ elim (Bool-cases (db.server_gone q)) [
    | inr stays ↦ simp (failed, stays) refl
    | inl gone ↦ simp (failed, gone) (connect-connected db (record my { connected = false }))
  ]
]

query-fine :
    (db : Database) (q : Bytes) (my : Mysql) → db.fails q ≡ false → run_query db q my ≡ (my, pos 0)
unfolding run_query
query-fine db q my fine = simp fine refl

-- One statement is sent, the last, and it was the insert or stored no row.
query-Stores :
    (db : Database) (limits : Limits) (upd ins q : Bytes) (my : Mysql) (before : List Bytes)
    → Sends db limits upd ins before q
    → All (λ b. db.fails b ≡ false) before
    → (db.fails q ≡ false → (q ≡ ins) ⊎ ((q ≡ upd) × (ltb_ℤ (pos 0) (db.affected upd) ≡ true)))
    → let r = run_query db q my in Stores db limits upd ins my (r.0, before ++ (q ∷ []), r.1)
query-Stores db limits upd ins q my before order fine kept = record {
  before = before;
  last = q;
  sent = refl;
  sends = order;
  done_before = fine;
  returns = query-returns db q my;
  same_count = query-inserts db q my;
  connection = query-connected db q my;
  is_stored = λ zero_code. elim (Bool-cases (db.fails q)) [
    | inl failed ↦ absurd (let r = query-returns db q my in let r' = rw failed at r in cc)
    | inr ok ↦ kept ok
  ];
}

-- Storing a row. Where small tables are not kept, the insert alone is sent. Where they are, the update
-- is sent first: alone where it fails or changes a row, and followed by the insert alone otherwise.
-- All statements but the last succeeded, and the call returns 0 exactly where the last did, -1 otherwise. With 0
-- the insert was made, or the update changed some row. Where the server is gone at the last
-- statement, the connection is then as the attempt to connect again left it; otherwise it stays as
-- it was.
pub update_or_insert-Stores :
    (db : Database) (limits : Limits) (upd ins : Bytes) (my : Mysql)
    → Stores db limits upd ins my (myout_update_or_insert db limits upd ins my)
unfolding myout_update_or_insert myout_insert
update_or_insert-Stores db limits upd ins my = elim (Bool-cases limits.keepsmall) [
  | inr forgets ↦
      let e : myout_update_or_insert db limits upd ins my
          ≡ ((run_query db ins my).0, ins ∷ [], (run_query db ins my).1) =
        simp forgets refl in
      subst (Stores db limits upd ins my) (sym e)
        (query-Stores db limits upd ins ins my [] (inl (forgets, refl, refl)) tt λ _. inl refl)
  | inl keeps ↦
      let result = myout_update_or_insert db limits upd ins my in
      let updated = run_query db upd my in
      let inserted = run_query db ins my in
      elim (Bool-cases (db.fails upd)) [
        | inl failed ↦
            let e : result ≡ (updated.0, upd ∷ [], updated.1) =
              unfold run_query in simp (keeps, failed) refl in
            subst (Stores db limits upd ins my) (sym e) (
              query-Stores db limits upd ins upd my [] (inr (inl (keeps, refl, refl, inl failed)))
                tt λ ok. absurd (ground (arith, failed, ok)))
        | inr fine ↦ elim (Bool-cases (ltb_ℤ (pos 0) (db.affected upd))) [
          | inl changed ↦
              let e : result ≡ (updated.0, upd ∷ [], updated.1) =
                unfold run_query in simp (keeps, fine, changed) refl in
              subst (Stores db limits upd ins my) (sym e) (
                query-Stores db limits upd ins upd my []
                  (inr (inl (keeps, refl, refl, inr changed))) tt λ _. inr (refl, changed))
          | inr none_changed ↦
              let e : result ≡ (inserted.0, upd ∷ ins ∷ [], inserted.1) =
                unfold run_query in simp (keeps, fine, none_changed) refl in
              subst (Stores db limits upd ins my) (sym e) (
                query-Stores db limits upd ins ins my (upd ∷ [])
                  (inr (inr (keeps, refl, refl, none_changed))) (fine, tt) λ _. inl refl)
        ]
      ]
]
