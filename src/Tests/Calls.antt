-- ===== src/Tests/Calls.antt =====
-- Examples for concurrent calls of the provisioning.
use frego_finance.Prelude.{◌≤◌, ◌≡◌, refl, ◌⊎◌, some, nat_eq, text_eq, length}
use frego_finance.Db.Query.{applied_texts}
use frego_finance.Db.Provision.Calls.{
  System, idle, with_call, moved, advance, locked, lock, move, call, work, Reach, start, later,
  Work,
}
use frego_finance.Db.Provision.Calls.Linear.{IsLinear, order_of, Reach-IsLinear}
use frego_finance.Db.Provision.Calls.Progress.{
  none_yet, one_more, load, calls, IsDone, Works-bounded,
}
use frego_finance.Tests.Db.{up}

abbrev two_wait : System
two_wait = with_call (with_call idle)

abbrev one_holds : System
one_holds = record two_wait { waiting = 1; holder = some (up, locked) }

abbrev one_loads : System
one_loads = moved up one_holds (advance up locked one_holds.vars)

holds : Work two_wait one_holds
holds = lock up 1 refl refl refl

loads : Work one_holds one_loads
loads = move up locked refl refl refl

reached : Reach one_loads
reached = later (later (later (later start (call refl)) (call refl)) (work holds)) (work loads)

Reach-IsLinear_example :
    IsLinear one_loads (order_of reached) × (length (applied_texts one_loads.events) ≤ 1)
Reach-IsLinear_example = Reach-IsLinear reached

Works-bounded_example :
    (2 ≤ load two_wait)
    × (((t : System) × Work one_loads t)
        ⊎ (IsDone one_loads × (length one_loads.answers ≡ calls two_wait)))
Works-bounded_example = Works-bounded up (one_more (one_more none_yet holds) loads)
