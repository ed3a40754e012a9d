-- ===== src/OutMysql/Tests.antt =====
-- A database that forgets its connection.
use edysquelch.Prelude.{true, false, List, [], ◌∷◌, ltb, length, ℤ, pos, codes}
use edysquelch.OutMysql.{Mysql, Database, Limits, FloatText, myout_update_or_insert}
use edysquelch.OutMysql.Purges.{Position}
use edysquelch.OutMysql.Storing.{Stores, update_or_insert-Stores}

abbrev database : Database
database = record {
  initialises = true;
  connects = true;
  fails = λ q. ltb 60 (length q);
  server_gone = λ q. true;
  affected = λ q. pos 0;
}

abbrev limits : Limits
limits = record { oldlimit = pos 3600; keepsmall = false }

abbrev nearly : Mysql
nearly = record { connected = true; inserts = 8 }

update_or_insert-Stores_example :
    Stores database
      (record limits { keepsmall = true })
      (codes "UPDATE")
      (codes "INSERT")
      nearly
      (myout_update_or_insert database
        (record limits { keepsmall = true })
        (codes "UPDATE")
        (codes "INSERT")
        nearly)
update_or_insert-Stores_example =
    update_or_insert-Stores database (record limits { keepsmall = true }) (codes "UPDATE")
      (codes "INSERT") nearly

abbrev digits : FloatText
digits = record {
  Float = ℤ;
  seven = λ x. codes "60.1700000";
  five = λ x. codes "24.94000";
  plain = λ x. codes "7";
}

abbrev ferry : Position digits
ferry = record {
  tid = pos 1;
  mmsi = pos 230123456;
  lat = pos 60;
  lon = pos 25;
  hdg = pos 180;
  course = pos 181;
  sog = pos 7;
}

abbrev three_positions : List (Position digits)
three_positions = ferry ∷ ferry ∷ ferry ∷ []
