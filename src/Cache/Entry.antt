-- ===== src/Cache/Entry.antt =====
-- The entries of src/cache.c and src/cache.h, and what the calls write to them.
use edysquelch.Prelude.{
  ℕ, ◌-◌, ◌%◌, ◌^◌, Bool, true, false, ◌&&◌, Option, none, some, List, [], ◌∷◌, ◌==◌, if◌then◌else◌,
  ℤ, pos, negsuc, Bytes,
}

-- spkey_t of an int
unfoldable pub key_of : ℤ → ℕ
key_of (pos n) = n % 2 ^ 32
key_of (negsuc k) = 2 ^ 32 - 1 - k % 2 ^ 32

abbrev pub given : Option Bytes → List Bytes → List Bytes
given none rest = rest
given (some s) rest = s ∷ rest

-- strcmp is 0
abbrev pub same_bytes : Bytes → Bytes → Bool
same_bytes [] [] = true
same_bytes (a ∷ s) (b ∷ t) = a == b && same_bytes s t
same_bytes _ _ = false

-- The float type: what a conversion from an int gives, all that the cache does with it.
pub record FloatType : Type 1 where
  pub Float : Type 0
  pub of_int : ℤ → Float

module _ (float : FloatType) where
  -- struct cache_ent; `none` is NULL.
  pub record CacheEnt : Type 0 where
    pub mmsi : ℤ
    pub received_pos : ℤ
    pub lat : float.Float
    pub lon : float.Float
    pub hdg : ℤ
    pub course : float.Float
    pub sog : float.Float
    pub navstat : ℤ
    pub received_data : ℤ
    pub imo : ℤ
    pub callsign : Option Bytes
    pub name : Option Bytes
    pub destination : Option Bytes
    pub shiptype : ℤ
    pub dim_a : ℤ
    pub dim_b : ℤ
    pub dim_c : ℤ
    pub dim_d : ℤ
    pub draught : float.Float
    pub received_persons_on_board : ℤ
    pub persons_on_board : ℤ

  -- An entry as cache_get makes it.
  unfoldable pub new_entry : CacheEnt
  new_entry = record {
    mmsi = pos 0;
    received_pos = pos 0;
    lat = float.of_int (pos 0);
    lon = float.of_int (pos 0);
    hdg = negsuc 0;
    course = float.of_int (negsuc 0);
    sog = float.of_int (negsuc 0);
    navstat = negsuc 0;
    received_data = pos 0;
    imo = negsuc 0;
    callsign = none;
    name = none;
    destination = none;
    shiptype = negsuc 0;
    dim_a = negsuc 0;
    dim_b = negsuc 0;
    dim_c = negsuc 0;
    dim_d = negsuc 0;
    draught = float.of_int (pos 0);
    received_persons_on_board = pos 0;
    persons_on_board = negsuc 0;
  }

  -- The calls that put data in the cache, with their arguments behind `received_t` and `mmsi`. Of a
  -- position the cache leaves `rateofturn` out.
  pub data Report : Type 0 where
    position : ℤ → float.Float → float.Float → ℤ → float.Float → ℤ → float.Float → Report
    vesseldata : ℤ → Bytes → Bytes → Bytes → ℤ → ℤ → ℤ → ℤ → ℤ → float.Float → Report
    vesseldatab : Bytes → ℤ → ℤ → ℤ → ℤ → ℤ → Report
    vesseldatabb : ℤ → ℤ → ℤ → ℤ → ℤ → Report
    vesselname : Bytes → Bytes → Report
    vessel_persons : ℤ → Report

  -- A string is copied where there was none or another.
  unfoldable pub refreshed : Option Bytes → Bytes → Option Bytes
  refreshed none s = some s
  refreshed (some old) s = if same_bytes old s then some old else some s

  -- What each call writes to the entry of the ship, which cache_get gives it.
  unfoldable pub cache_position :
      ℤ
      → ℤ
      → ℤ
      → float.Float
      → float.Float
      → ℤ
      → float.Float
      → ℤ
      → float.Float
      → CacheEnt
      → CacheEnt
  cache_position t mmsi navstat lat lon hdg course rateofturn sog e = record e {
    mmsi = mmsi;
    received_pos = t;
    lat = lat;
    lon = lon;
    hdg = hdg;
    course = course;
    sog = sog;
    navstat = navstat;
  }

  unfoldable pub cache_vesseldata :
      ℤ → ℤ → ℤ → Bytes → Bytes → Bytes → ℤ → ℤ → ℤ → ℤ → ℤ → float.Float → CacheEnt → CacheEnt
  unfolding refreshed
  cache_vesseldata t mmsi imo callsign name destination shiptype a b c d draught e = record e {
    mmsi = mmsi;
    imo = imo;
    received_data = t;
    callsign = refreshed e.callsign callsign;
    name = refreshed e.name name;
    destination = refreshed e.destination destination;
    shiptype = shiptype;
    dim_a = a;
    dim_b = b;
    dim_c = c;
    dim_d = d;
    draught = draught;
  }

  unfoldable pub cache_vesseldatab : ℤ → ℤ → Bytes → ℤ → ℤ → ℤ → ℤ → ℤ → CacheEnt → CacheEnt
  unfolding refreshed
  cache_vesseldatab t mmsi callsign shiptype a b c d e = record e {
    mmsi = mmsi;
    imo = pos 0;
    received_data = t;
    callsign = refreshed e.callsign callsign;
    shiptype = shiptype;
    dim_a = a;
    dim_b = b;
    dim_c = c;
    dim_d = d;
    draught = float.of_int (pos 0);
  }

  unfoldable pub cache_vesseldatabb : ℤ → ℤ → ℤ → ℤ → ℤ → ℤ → ℤ → CacheEnt → CacheEnt
  cache_vesseldatabb t mmsi shiptype a b c d e = record e {
    mmsi = mmsi;
    imo = pos 0;
    received_data = t;
    shiptype = shiptype;
    dim_a = a;
    dim_b = b;
    dim_c = c;
    dim_d = d;
    draught = float.of_int (pos 0);
  }

  unfoldable pub cache_vesselname : ℤ → ℤ → Bytes → Bytes → CacheEnt → CacheEnt
  unfolding refreshed
  cache_vesselname t mmsi name destination e = record e {
    mmsi = mmsi;
    received_data = t;
    name = refreshed e.name name;
    destination = refreshed e.destination destination;
  }

  unfoldable pub cache_vessel_persons : ℤ → ℤ → ℤ → CacheEnt → CacheEnt
  cache_vessel_persons t mmsi persons_on_board e = record e {
    mmsi = mmsi;
    received_persons_on_board = t;
    persons_on_board = persons_on_board;
  }

  unfoldable pub written : ℤ → ℤ → Report → CacheEnt → CacheEnt
  unfolding cache_position cache_vesseldata cache_vesseldatab cache_vesseldatabb cache_vesselname
      cache_vessel_persons
  written t mmsi (position navstat lat lon hdg course rateofturn sog) e =
      cache_position t mmsi navstat lat lon hdg course rateofturn sog e
  written t mmsi (vesseldata imo callsign name destination shiptype a b c d draught) e =
      cache_vesseldata t mmsi imo callsign name destination shiptype a b c d draught e
  written t mmsi (vesseldatab callsign shiptype a b c d) e =
      cache_vesseldatab t mmsi callsign shiptype a b c d e
  written t mmsi (vesseldatabb shiptype a b c d) e = cache_vesseldatabb t mmsi shiptype a b c d e
  written t mmsi (vesselname name destination) e = cache_vesselname t mmsi name destination e
  written t mmsi (vessel_persons persons_on_board) e =
      cache_vessel_persons t mmsi persons_on_board e

  -- The strings of an entry that are freed with it.
  unfoldable pub cache_free_entry : CacheEnt → List Bytes
  cache_free_entry e = given e.name (given e.destination (given e.callsign []))

  -- A call: `received_t`, `mmsi` and the rest.
  pub record Message : Type 0 where
    pub received_t : ℤ
    pub mmsi : ℤ
    pub report : Report
