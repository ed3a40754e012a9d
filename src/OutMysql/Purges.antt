-- ===== src/OutMysql/Purges.antt =====
-- Every tenth position purges the old rows.
use edysquelch.Prelude.{◌≡◌, List, [], ◌∷◌, ◌++◌, ℤ, Bytes, refl, inl, inr, false, Bool-cases}
use edysquelch.OutMysql.{
  Mysql, Database, Limits, FloatText, myout_connect, myout_reconnect, run_query, myout_ais_position,
}

connect-inserts : (db : Database) (my : Mysql) → (myout_connect db my).0.inserts ≡ my.inserts
unfolding myout_connect
connect-inserts db my = elim (Bool-cases db.connects) [ inl y ↦ simp y refl | inr n ↦ simp n refl ]

pub query-inserts :
    (db : Database) (q : Bytes) (my : Mysql) → (run_query db q my).0.inserts ≡ my.inserts
unfolding run_query myout_reconnect
query-inserts db q my = elim (Bool-cases (db.fails q)) [
  | inr fine ↦ simp fine refl
  | inl failed ↦ elim (Bool-cases (db.server_gone q)) [
    | inr stays ↦ simp (failed, stays) refl
    | inl gone ↦ simp (failed, gone) (connect-inserts db (record my { connected = false }))
  ]
]

module _ (text : FloatText) where
  -- The arguments of myout_ais_position.
  pub record Position : Type 0 where
    pub tid : ℤ
    pub mmsi : ℤ
    pub lat : text.Float
    pub lon : text.Float
    pub hdg : text.Float
    pub course : text.Float
    pub sog : text.Float

  abbrev pub store : Database → Limits → Position → Mysql → Mysql × List Bytes × ℤ
  store db limits p my =
      myout_ais_position text db limits p.tid p.mmsi p.lat p.lon p.hdg p.course p.sog my

  -- Positions in a row: the state in the end, and the statements.
  abbrev pub store_all : Database → Limits → List Position → Mysql → Mysql × List Bytes
  store_all db limits [] my = (my, [])
  store_all db limits (p ∷ ps) my =
      let (my', sent, ret) = store db limits p my in
      let (last, more) = store_all db limits ps my' in (last, sent ++ more)
