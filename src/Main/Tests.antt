-- ===== src/Main/Tests.antt =====
-- The loop over a few reads of one channel.
use edysquelch.Prelude.{
  ◌*◌, ◌≡◌, refl, ap, false, some, List, [], ◌∷◌, map, arith, All, ℤ, pos, negsuc, pos_part, ◌+ℤ◌,
  codes, done,
}
use edysquelch.Filter.{FloatOps}
use edysquelch.Cfg.{mono}
use edysquelch.Fingerpori.{Fingerprint}
use edysquelch.Receiver.Squelch.{Event}
use edysquelch.Receiver.Notify.{Clock, Notice, notify_all}
use edysquelch.Receiver.Notify.Ids.{Paired, events_of}
use edysquelch.Main.{Program, set_up, Read, main_loop}
use edysquelch.Main.Loop.{Ready, IsFair, main_loop-Ready}
use edysquelch.Main.Turns.{main_loop-Paired}

abbrev int_ops : FloatOps
int_ops = record {
  Float = ℤ;
  zero_float = pos 0;
  add = ◌+ℤ◌;
  mul = λ a b. pos (pos_part a * pos_part b);
  of_short = λ x. x;
  to_short = λ x. x;
}

abbrev tone : Fingerprint
tone = record {
  name = codes "tone.raw";
  samples = λ i. pos 40;
  len = 300;
  ampl_avg = 40;
  ampl_max = 40;
}

abbrev read_of : ℤ → Read int_ops
read_of n = record {
  buffer_read = n;
  buffer = λ i. pos i;
  env = record {
    fps = tone ∷ [];
    sound_levellog = pos 0;
    now = pos 1000;
    stack = λ i j. pos 0;
    garbage = λ i. pos 0;
  };
}

abbrev reads : List (Read int_ops)
reads = read_of (pos 1024) ∷ read_of (negsuc 4) ∷ read_of (pos 8192) ∷ []

reads-IsFair : All (IsFair int_ops) reads
unfolding IsFair
reads-IsFair = (
  (omega arith, (omega arith, tt)),
  ((omega arith, (omega arith, tt)), ((omega arith, (omega arith, tt)), tt)),
)

looped :
    (p : Program int_ops) × (main_loop int_ops false mono reads (set_up int_ops mono (λ i. pos 1))
      ≡ done p)
    × Ready int_ops p
looped = main_loop-Ready int_ops false reads (λ i. pos 1) reads-IsFair

abbrev clock : Clock
clock = record {
  day_time = some (
    record { tm_year = 112; tm_mon = 5; tm_mday = 21; tm_hour = 12; tm_min = 0; tm_sec = 7 },
    1500,
  );
  now = pos 1340280007;
}

abbrev notices_of : List Event → List Notice
notices_of = map (λ e. record { clock = clock; samples = λ i. pos 0; event = e })

events_of-notices_of : (es : List Event) → events_of (notices_of es) ≡ es
events_of-notices_of [] = refl
events_of-notices_of (e ∷ es) = ap (◌∷◌ e) (events_of-notices_of es)

main_loop-Paired_example :
    Paired false
      (codes "")
      (notify_all (notices_of looped.0.events) (codes "")).1
      looped.0.sql.sql_open
main_loop-Paired_example =
    main_loop-Paired int_ops false mono reads (λ i. pos 1) looped.0 (notices_of looped.0.events)
      (codes "") looped.1 (events_of-notices_of looped.0.events)
