-- ===== src/Memory/Tests.antt =====
-- Runs of the memory store.
use fxfill_enterprise_bankin.Common.{String, ◌≤◌, ◌≡◌, refl, true, not, all, length, List, [], ◌∷◌}
use fxfill_enterprise_bankin.Memory.{
  UserPreference, is_sensitive_key, get_preferences, pref_key, make_room, save_preference,
}
use fxfill_enterprise_bankin.Dict.{lookup, assign}
use fxfill_enterprise_bankin.Memory.Bounds.{
  Op, save, run, apply, empty_store, preferences_within_policy,
}

abbrev preference : String → UserPreference
preference k = record { key = k; value = "v"; user_id = "u"; tenant_id = "t" }

abbrev ops : List Op
ops = save (preference "lang") ∷ save (preference "pin") ∷ save (preference "unit") ∷ []

preferences_within_policy_example :
    (length (get_preferences "u" "t" (run (λ t. t) ops (empty_store 1))) ≤ 1)
    × (all
          (λ p. not (is_sensitive_key (λ t. t) p))
          (get_preferences "u" "t" (run (λ t. t) ops (empty_store 1)))
        ≡ true)
preferences_within_policy_example = preferences_within_policy (λ t. t) 1 ops "u" "t"

keeps_the_newest :
    get_preferences "u" "t" (run (λ t. t) ops (empty_store 1)) ≡ preference "unit" ∷ []
unfolding run apply get_preferences save_preference make_room is_sensitive_key pref_key lookup
    assign
keeps_the_newest = refl
