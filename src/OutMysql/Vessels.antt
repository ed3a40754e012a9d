-- ===== src/OutMysql/Vessels.antt =====
-- The other statements of src/out_mysql.c.
use edysquelch.Prelude.{List, [], ◌∷◌, ℤ, Bytes, codes}
use edysquelch.Log.{signed_decimal}
use edysquelch.OutMysql.{
  Mysql, Database, Limits, FloatText, cut, myout_insert, myout_update_or_insert, quoted,
  insert_into,
}

unfoldable pub myout_nmea : Database → ℤ → Bytes → Mysql → Mysql × List Bytes × ℤ
unfolding insert_into myout_insert
myout_nmea db tid nmea my =
    myout_insert db
      (insert_into (codes "ais_nmea (time, message)")
        (signed_decimal tid ∷ quoted (b'!' ∷ nmea) ∷ []))
      my

module _ (text : FloatText) where
  unfoldable pub myout_ais_basestation :
      Database → Limits → ℤ → ℤ → text.Float → text.Float → Mysql → Mysql × List Bytes × ℤ
  unfolding insert_into myout_update_or_insert
  myout_ais_basestation db limits tid mmsi lat lon my =
      myout_update_or_insert db limits
        (cut (
          codes "UPDATE ais_basestation SET time="
          ∷ signed_decimal tid
          ∷ codes ", latitude="
          ∷ text.seven lat
          ∷ codes ", longitude="
          ∷ text.seven lon
          ∷ codes " WHERE mmsi="
          ∷ signed_decimal mmsi
          ∷ []))
        (insert_into (codes "ais_basestation (time,mmsi,latitude,longitude)")
          (signed_decimal tid ∷ signed_decimal mmsi ∷ text.seven lat ∷ text.seven lon ∷ []))
        my

  unfoldable pub myout_ais_vesseldata :
      Database
      → Limits
      → ℤ
      → ℤ
      → Bytes
      → Bytes
      → text.Float
      → ℤ
      → ℤ
      → ℤ
      → ℤ
      → Mysql
      → Mysql × List Bytes × ℤ
  unfolding insert_into myout_update_or_insert
  myout_ais_vesseldata db limits tid mmsi name destination draught a b c d my =
      myout_update_or_insert db limits
        (cut (
          codes "UPDATE ais_vesseldata SET time="
          ∷ signed_decimal tid
          ∷ codes ", name="
          ∷ quoted name
          ∷ codes ", destination="
          ∷ quoted destination
          ∷ codes ", A="
          ∷ signed_decimal a
          ∷ codes ", B="
          ∷ signed_decimal b
          ∷ codes ", C="
          ∷ signed_decimal c
          ∷ codes ", D="
          ∷ signed_decimal d
          ∷ codes ", draught="
          ∷ text.plain draught
          ∷ codes " WHERE mmsi="
          ∷ signed_decimal mmsi
          ∷ []))
        (insert_into (codes "ais_vesseldata (time,mmsi,name,destination,draught,A,B,C,D)") (
          signed_decimal tid
          ∷ signed_decimal mmsi
          ∷ quoted name
          ∷ quoted destination
          ∷ text.plain draught
          ∷ signed_decimal a
          ∷ signed_decimal b
          ∷ signed_decimal c
          ∷ signed_decimal d
          ∷ []))
        my

  unfoldable pub myout_ais_vesseldatab :
      Database → Limits → ℤ → ℤ → ℤ → ℤ → ℤ → ℤ → Mysql → Mysql × List Bytes × ℤ
  unfolding insert_into myout_update_or_insert
  myout_ais_vesseldatab db limits tid mmsi a b c d my =
      myout_update_or_insert db limits
        (cut (
          codes "UPDATE ais_vesseldata SET time="
          ∷ signed_decimal tid
          ∷ codes ", A="
          ∷ signed_decimal a
          ∷ codes ", B="
          ∷ signed_decimal b
          ∷ codes ", C="
          ∷ signed_decimal c
          ∷ codes ", D="
          ∷ signed_decimal d
          ∷ codes " WHERE mmsi="
          ∷ signed_decimal mmsi
          ∷ []))
        (insert_into (codes "ais_vesseldata (time,mmsi,A,B,C,D)") (
          signed_decimal tid
          ∷ signed_decimal mmsi
          ∷ signed_decimal a
          ∷ signed_decimal b
          ∷ signed_decimal c
          ∷ signed_decimal d
          ∷ []))
        my

  unfoldable pub myout_ais_vesselname :
      Database → Limits → ℤ → ℤ → Bytes → Bytes → Mysql → Mysql × List Bytes × ℤ
  unfolding insert_into myout_update_or_insert
  myout_ais_vesselname db limits tid mmsi name destination my =
      myout_update_or_insert db limits
        (cut (
          codes "UPDATE ais_vesseldata SET time="
          ∷ signed_decimal tid
          ∷ codes ", name="
          ∷ quoted name
          ∷ codes ", destination="
          ∷ quoted destination
          ∷ codes " WHERE mmsi="
          ∷ signed_decimal mmsi
          ∷ []))
        (insert_into (codes "ais_vesseldata (time,mmsi,name,destination)")
          (signed_decimal tid ∷ signed_decimal mmsi ∷ quoted name ∷ quoted destination ∷ []))
        my
