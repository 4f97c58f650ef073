-- ===== src/Memory/Isolation.antt =====
-- Who sees a preference of memory/store.py.
use Prim.Native.String
use text.Mathlib.TextLemmas.{append_assoc}
use fxfill_enterprise_bankin.Common.{String, ◌≡◌, sym, ap, ◌∙◌}
use fxfill_enterprise_bankin.Dict.{lookup}
use fxfill_enterprise_bankin.Memory.{MemoryStore, pref_key, list_or_empty, get_preferences}

-- A colon in a name moves it between tenant and user.
pref_key_collides :
    (a b c : String)
    → pref_key (String.◌++◌ b (String.◌++◌ ":" c)) a
      ≡ pref_key c (String.◌++◌ a (String.◌++◌ ":" b))
unfolding pref_key
pref_key_collides a b c = sym (
    append_assoc a (String.◌++◌ ":" b) (String.◌++◌ ":" c)
    ∙ ap (String.◌++◌ a) (append_assoc ":" b (String.◌++◌ ":" c)))

-- Two users of two tenants share their preferences: in any store, the user `b:c` of the tenant `a`
-- and the user `c` of the tenant `a:b` get the same list.
pub colon_shares_preferences :
    (a b c : String) (s : MemoryStore)
    → get_preferences (String.◌++◌ b (String.◌++◌ ":" c)) a s
      ≡ get_preferences c (String.◌++◌ a (String.◌++◌ ":" b)) s
unfolding get_preferences
colon_shares_preferences a b c s =
    ap (λ k. list_or_empty (lookup k s.preferences)) (pref_key_collides a b c)
