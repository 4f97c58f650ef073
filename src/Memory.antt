-- ===== src/Memory.antt =====
-- memory/models.py and memory/store.py: preferences and episodes. `lower` is Python's `str.lower`.
pub mod Bounds
pub mod Isolation
mod Tests
use Prim.Native.String
use fxfill_enterprise_bankin.Common.{
  ℕ, zero, suc, ◌-◌, String, Bool, true, false, Option, none, some, List, [], ◌∷◌, ◌++◌, length,
  contains, leb, if◌then◌else◌,
}
use fxfill_enterprise_bankin.Dict
use fxfill_enterprise_bankin.Dict.{lookup, assign, remove}

pub record UserPreference : Type 0 where
  pub key : String
  pub value : String
  pub user_id : String
  pub tenant_id : String

pub record EpisodeRecord : Type 0 where
  pub episode_id : String
  pub tenant_id : String
  pub summary : String

abbrev pub blocked : List String
blocked = "account_number" ∷ "password" ∷ "pin" ∷ "ssn" ∷ "token" ∷ "secret" ∷ []

unfoldable pub is_sensitive_key : (String → String) → UserPreference → Bool
is_sensitive_key lower p = contains (lower p.key) blocked

pub record MemoryStore : Type 0 where
  pub preferences : List (String × List UserPreference)
  pub episodes : List (String × List EpisodeRecord)
  pub max_preferences : ℕ

-- `_pref_key`
unfoldable pub pref_key : (user_id tenant_id : String) → String
pref_key user_id tenant_id = String.◌++◌ tenant_id (String.◌++◌ ":" user_id)

abbrev pub list_or_empty {ℓ} : {A : Type ℓ} → Option (List A) → List A
list_or_empty none = []
list_or_empty (some xs) = xs

-- The answer of `save_preference`; `index_error` is `pop(0)` on an empty list.
pub data Saved : Type 0 where
  blocked_by_policy index_error : Saved
  saved : MemoryStore → Saved

-- existing.pop(0)
abbrev pub pop_first {ℓ} : {A : Type ℓ} → List A → Option (List A)
pop_first [] = none
pop_first (x ∷ xs) = some xs

-- The list to which the preference is appended.
unfoldable pub make_room : ℕ → List UserPreference → Option (List UserPreference)
make_room max existing = if leb max (length existing) then pop_first existing else some existing

abbrev pub store_in : UserPreference → MemoryStore → Option (List UserPreference) → Saved
store_in p s none = Saved.index_error
store_in p s (some kept) = Saved.saved (record s {
  preferences = assign (pref_key p.user_id p.tenant_id) (kept ++ p ∷ []) s.preferences;
})

unfoldable pub save_preference : (String → String) → UserPreference → MemoryStore → Saved
save_preference lower p s =
    if is_sensitive_key lower p
    then Saved.blocked_by_policy
    else store_in p s (
        make_room s.max_preferences
          (list_or_empty (lookup (pref_key p.user_id p.tenant_id) s.preferences)))

unfoldable pub get_preferences : (user_id tenant_id : String) → MemoryStore → List UserPreference
get_preferences user_id tenant_id s =
    list_or_empty (lookup (pref_key user_id tenant_id) s.preferences)

unfoldable pub delete_preferences : (user_id tenant_id : String) → MemoryStore → MemoryStore
delete_preferences user_id tenant_id s = record s {
  preferences = remove (pref_key user_id tenant_id) s.preferences;
}

unfoldable pub save_episode : EpisodeRecord → MemoryStore → MemoryStore
save_episode e s = record s {
  episodes =
      assign e.tenant_id (list_or_empty (lookup e.tenant_id s.episodes) ++ e ∷ []) s.episodes;
}

abbrev pub drop {ℓ} : {A : Type ℓ} → ℕ → List A → List A
drop zero xs = xs
drop (suc n) [] = []
drop (suc n) (x ∷ xs) = drop n xs

-- xs[-limit:], where a limit of 0 selects everything
unfoldable pub last_of {ℓ} : {A : Type ℓ} → ℕ → List A → List A
last_of zero xs = xs
last_of (suc n) xs = drop (length xs - suc n) xs

unfoldable pub get_episodes : (tenant_id : String) → (limit : ℕ) → MemoryStore → List EpisodeRecord
unfolding last_of
get_episodes tenant_id limit s = last_of limit (list_or_empty (lookup tenant_id s.episodes))
