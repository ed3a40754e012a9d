-- ===== src/OutMysql.antt =====
-- src/out_mysql.c: the statements that are sent to the database, and what the calls return. The
-- database and the texts of floats are parameters, and so are mysql_oldlimit and mysql_keepsmall,
-- which no file declares.
pub mod Vessels
pub mod Purges
pub mod Storing
mod Tests
use edysquelch.Prelude.{
  ℕ, ◌+◌, ◌-◌, ◌%◌, Bool, true, false, not, Option, none, some, List, [], ◌∷◌, ◌++◌, ◌==◌,
  if◌then◌else◌, take, ℤ, pos, negsuc, ◌-ℤ◌, ltb_ℤ, is_zero, Bytes, codes, joined,
}
use edysquelch.Log.{signed_decimal}

-- struct mysql_state_t without the connection of the library.
pub record Mysql : Type 0 where
  pub connected : Bool
  pub inserts : ℕ

-- What the library answers: whether mysql_init and mysql_real_connect succeed, and for a statement
-- whether mysql_query fails, whether the error is CR_SERVER_GONE_ERROR, and the affected rows.
pub record Database : Type 0 where
  pub initialises : Bool
  pub connects : Bool
  pub fails : Bytes → Bool
  pub server_gone : Bytes → Bool
  pub affected : Bytes → ℤ

pub record Limits : Type 0 where
  pub oldlimit : ℤ
  pub keepsmall : Bool

-- "%.7f", "%.5f" and "%f"
pub record FloatText : Type 1 where
  pub Float : Type 0
  pub seven : Float → Bytes
  pub five : Float → Bytes
  pub plain : Float → Bytes

-- MAX_SQL_LEN
abbrev pub max_sql_len : ℕ
max_sql_len = 2000

-- A statement as snprintf cuts it.
abbrev pub cut : List Bytes → Bytes
cut parts = take (max_sql_len - 1) (joined parts)

unfoldable pub myout_connect : Database → Mysql → Mysql × ℤ
myout_connect db my =
    if db.connects
    then (record my { connected = true }, pos 1)
    else (record my { connected = false }, pos 0)

-- NULL where the library or the connection fails.
unfoldable pub myout_init : Database → Option Mysql
unfolding myout_connect
myout_init db =
    if not db.initialises
    then none
    else (let (my, up) = myout_connect db (record { connected = false; inserts = 0 }) in
        if is_zero up then none else some (record my { connected = true }))

unfoldable pub myout_reconnect : Database → Mysql → Mysql
unfolding myout_connect
myout_reconnect db my = (myout_connect db (record my { connected = false })).0

-- The statement, and the rows that are deleted.
unfoldable pub myout_delete_from : Database → Limits → ℤ → Bytes → Bytes × ℤ
myout_delete_from db limits now table =
    let q = cut (
      codes "DELETE FROM "
      ∷ table
      ∷ codes " WHERE time < "
      ∷ signed_decimal (now -ℤ limits.oldlimit)
      ∷ []) in
    (q, if db.fails q then pos 0 else db.affected q)

-- The statements of a purge; the rows are summed up and forgotten.
unfoldable pub myout_delete_old : Database → Limits → ℤ → List Bytes
unfolding myout_delete_from
myout_delete_old db limits now =
    if ltb_ℤ (pos 0) limits.oldlimit
    then (myout_delete_from db limits now (codes "ais_position")).0
      ∷ (myout_delete_from db limits now (codes "ais_vesseldata")).0
      ∷ (myout_delete_from db limits now (codes "ais_basestation")).0
      ∷ (myout_delete_from db limits now (codes "ais_nmea")).0
      ∷ []
    else []

-- One statement: the state, and 0 or -1.
unfoldable pub run_query : Database → Bytes → Mysql → Mysql × ℤ
unfolding myout_reconnect
run_query db q my =
    if db.fails q
    then (if db.server_gone q then myout_reconnect db my else my, negsuc 0)
    else (my, pos 0)

unfoldable pub myout_insert : Database → Bytes → Mysql → Mysql × List Bytes × ℤ
unfolding run_query
myout_insert db ins my = let (my', ret) = run_query db ins my in (my', ins ∷ [], ret)

-- The state, the statements that are sent, and the value returned.
unfoldable pub myout_update_or_insert :
    Database → Limits → Bytes → Bytes → Mysql → Mysql × List Bytes × ℤ
unfolding myout_insert
myout_update_or_insert db limits upd ins my =
    if limits.keepsmall
    then (let (my', ret) = run_query db upd my in
        if db.fails upd
        then (my', upd ∷ [], ret)
        else if ltb_ℤ (pos 0) (db.affected upd)
        then (my', upd ∷ [], pos 0)
        else (let (my'', sent, ret') = myout_insert db ins my' in (my'', upd ∷ sent, ret')))
    else myout_insert db ins my

-- Values with commas in between.
unfoldable pub comma_separated : List Bytes → List Bytes
comma_separated [] = []
comma_separated (v ∷ []) = v ∷ []
comma_separated (v ∷ vs) = v ∷ codes "," ∷ comma_separated vs

abbrev pub quoted : Bytes → Bytes
quoted s = b'"' ∷ (s ++ (b'"' ∷ []))

-- INSERT of values into columns.
unfoldable pub insert_into : Bytes → List Bytes → Bytes
unfolding comma_separated
insert_into head values = cut (
    codes "INSERT INTO "
    ∷ head
    ∷ codes " VALUES ("
    ∷ joined (comma_separated values)
    ∷ codes ")"
    ∷ [])

module _ (text : FloatText) where
  unfoldable pub myout_ais_position :
      Database
      → Limits
      → ℤ
      → ℤ
      → text.Float
      → text.Float
      → text.Float
      → text.Float
      → text.Float
      → Mysql
      → Mysql × List Bytes × ℤ
  unfolding myout_delete_old insert_into myout_update_or_insert
  myout_ais_position db limits tid mmsi lat lon hdg course sog my =
      let full = (my.inserts + 1) % 10 == 0 in
      let purged = if full then myout_delete_old db limits tid else [] in
      let counted : Mysql = record my { inserts = if full then 0 else my.inserts + 1 } in
      let ins =
        insert_into (codes "ais_position (time,mmsi,latitude,longitude,heading,course,speed)") (
          signed_decimal tid
          ∷ signed_decimal mmsi
          ∷ text.seven lat
          ∷ text.seven lon
          ∷ text.five hdg
          ∷ text.plain course
          ∷ text.plain sog
          ∷ []) in
      let upd = cut (
        codes "UPDATE ais_position SET time="
        ∷ signed_decimal tid
        ∷ codes ", latitude="
        ∷ text.seven lat
        ∷ codes ", longitude="
        ∷ text.seven lon
        ∷ codes ", heading="
        ∷ text.plain hdg
        ∷ codes ", course="
        ∷ text.five course
        ∷ codes ", speed="
        ∷ text.plain sog
        ∷ codes " WHERE mmsi="
        ∷ signed_decimal mmsi
        ∷ []) in
      let (my', sent, ret) = myout_update_or_insert db limits upd ins counted in
      (my', purged ++ sent, ret)
