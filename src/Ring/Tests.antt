-- ===== src/Ring/Tests.antt =====
-- Instances of the theorems on src/ring_buffer.c, and runs of its functions.
use mathlib.Core.Option
use zedis.Base.{◌+◌, ◌^◌, ◌≤◌, ◌≡◌, refl, some, false, List, [], ◌∷◌, arith}
use zedis.Base.Bytes.{cstr}
use zedis.Base.Status.{ok, failed}
use zedis.Arena.{Arena, calloc, alloc, start, align_up}
use zedis.Ring.{
  Ring, fresh, fill, init, next_power_of_two, publish, poll, run, view, Op, put, get, put_status,
  got,
}
use zedis.Ring.Queue
use zedis.Ring.Window.{IsValid, contents, queue}
use zedis.Ring.Refine.{publish_refines, poll_refines, run_refines, ring_init-IsValid}

abbrev two : Ring
two = fresh 2

abbrev one_in : Ring
one_in = (publish two (b'a' ∷ []) (1 ∷ [])).1

abbrev script : List Op
script = put (b'a' ∷ []) (1 ∷ []) ∷ put (b'b' ∷ []) (2 ∷ []) ∷ put (b'c' ∷ []) [] ∷ get ∷ []

two-IsValid : IsValid two
two-IsValid = record {
  power = (1, refl, omega arith);
  storage = refl;
  ordered = omega arith;
  bounded = omega arith;
  counted = omega arith;
}

run_small :
    run two script
    ≡ put_status ok
      ∷ put_status ok
      ∷ put_status failed
      ∷ got (some (record { channel = b'a' ∷ []; payload = 1 ∷ []; seq = 0 }))
      ∷ []
unfolding run publish poll fill cstr
run_small = refl

rounds_up : next_power_of_two 4097 ≡ 8192
unfolding next_power_of_two
rounds_up = refl

publish_refines_example :
    let (s, r') = publish two (b'a' ∷ []) (1 ∷ []) in
    ((s, queue r') ≡ Queue.push 2 (queue two) (b'a' ∷ []) (1 ∷ [])) × IsValid r' × (r'.capacity ≡ 2)
publish_refines_example =
    publish_refines {r = two} (b'a' ∷ []) (1 ∷ []) two-IsValid (omega arith) (omega arith, tt)

one_in-IsValid : IsValid one_in
one_in-IsValid =
    (publish_refines {r = two} (b'a' ∷ []) (1 ∷ []) two-IsValid (omega arith) (omega arith, tt)).1

poll_refines_example :
    let (out, r') = poll one_in in
    ((Option.map view out, queue r') ≡ Queue.pop (queue one_in))
    × IsValid r'
    × (r'.capacity ≡ one_in.capacity)
poll_refines_example = poll_refines one_in-IsValid

run_refines_example : run two script ≡ Queue.run 2 (queue two) script
run_refines_example =
    run_refines script two-IsValid (omega arith)
      ((omega arith, tt), ((omega arith, tt), ((omega arith, tt), tt)))

abbrev arena : Arena
arena = record { base = 0x10000; size = 2 ^ 21; offset = 0; used_hugepages = false }

ring_init-IsValid_example : IsValid (fresh 8) × (contents (fresh 8) ≡ []) × (5 ≤ 8) × (8 ≤ 5 + 5)
unfolding init calloc alloc start align_up next_power_of_two
ring_init-IsValid_example = ring_init-IsValid arena 5 {r = fresh 8} (omega arith) (omega arith) refl
