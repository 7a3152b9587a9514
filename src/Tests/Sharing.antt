-- ===== src/Tests/Sharing.antt =====
-- One goroutine scales "web" while another puts "db" in failure.
use pre_scaling_operator.Common.{
  ℤ, pos, bytes, ◌==◌, Bool, ◌++◌, true, false, some, List, [], ◌∷◌, ◌≡◌, refl,
}
use mathlib.Core.Quot.{Quot}
use pre_scaling_operator.Global.{ScalingInfo}
use pre_scaling_operator.Global.Registry.{find, UniqueItems}
use pre_scaling_operator.Global.Uses.{
  Use, puts, sets, removes, run_uses, Serves, entry_after, run_uses_lem,
}
use pre_scaling_operator.Global.Uses.Interleaved.{Pair, before, run_schedule, start, names-Apart}
use pre_scaling_operator.Global.Uses.Interleaved.Agree.{Denymap, interleavings_agree}
use pre_scaling_operator.Global.Denylist.{
  is_in_concurrent_list, update, append_missing, remove_from_list,
}
use pre_scaling_operator.Tests.{web, web_item, db_item, db_listed}

abbrev web_uses : List (Use ℤ)
web_uses = puts web_item ∷ (removes (λ n. true) web_item ∷ [])

abbrev db_uses : List (Use ℤ)
db_uses = sets db_item true (bytes "no room") (pos 3) ∷ []

-- The loops of both UpdateOrAppend run before the appends.
abbrev turns : List Bool
turns = true ∷ (false ∷ (true ∷ (false ∷ (true ∷ []))))

both_end :
    run_schedule turns (start web_uses db_uses db_listed)
    ≡ some (record {
      denylist =
          record db_item {
            failure = true;
            failure_message = bytes "no room";
            desired_replicas = pos 3;
          }
          ∷ [];
      first = before [];
      second = before [];
    })
unfolding run_schedule is_in_concurrent_list update append_missing remove_from_list ◌==◌
both_end = refl

db_is_unique : UniqueItems db_listed
unfolding find
db_is_unique = (refl, tt)

other_name : web == db_item.name ≡ false
unfolding ◌==◌
other_name = refl

run_uses_example :
    Serves
      (run_uses web_uses db_listed)
      (λ name namespace. entry_after name namespace web_uses (find name namespace db_listed))
run_uses_example = run_uses_lem web_uses db_listed db_is_unique

interleavings_agree_example :
    (p : Pair ℤ) × (run_schedule turns (start web_uses db_uses db_listed) ≡ some p)
    × UniqueItems p.denylist
    × (p.first ≡ before []
        → p.second ≡ before []
        → (rest : List (ScalingInfo ℤ)) × (run_uses (web_uses ++ db_uses) db_listed ≡ some rest)
          × (◌≡◌ {A = Denymap ℤ} (Quot.mk p.denylist) (Quot.mk rest)))
interleavings_agree_example =
    interleavings_agree web_uses db_uses db_listed turns db_is_unique
      (names-Apart web db_item.name web_uses db_uses other_name (refl, (refl, tt)) (refl, tt))
