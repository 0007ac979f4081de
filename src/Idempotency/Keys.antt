-- ===== src/Idempotency/Keys.antt =====
-- `scopedIdempotencyKey`, and how `rowToIdempotencyRecord` takes such a key apart.
use Prim.Native.Char.{code}
use Prim.Native.String
use Prim.Native.String.append
use rai_flow.Prelude.{
  String, Bool, true, not, ◌≡◌, refl, Option, none, some, ◌&&◌, ◌==◌, nat_eq, if◌then◌else◌, arith,
}

-- `${scope}:${key}`
unfoldable pub scoped_idempotency_key : String → String → String
scoped_idempotency_key scope key = String.◌++◌ scope (String.◌∷◌ ":" key)

-- The parts of a text before and after its first colon.
unfoldable pub split_at_colon : String → Option (String × String)
split_at_colon String.[] = none
split_at_colon (String.◌∷◌ c s) =
    let rest = split_at_colon s in
    if code c == b':'
    then some ("", s)
    else elim rest [ none ↦ none | some (scope, key) ↦ some (String.◌∷◌ c scope, key) ]

-- A scope that can be told from the key after it.
abbrev pub is_plain : String → Bool
is_plain String.[] = true
is_plain (String.◌∷◌ c s) = not (code c == b':') && is_plain s

-- A scoped key whose scope has no colon comes apart into its scope and its key.
pub split-scoped :
    (scope key : String)
    → is_plain scope ≡ true
    → split_at_colon (scoped_idempotency_key scope key) ≡ some (scope, key)
unfolding scoped_idempotency_key split_at_colon
split-scoped String.[] key h = rw append.nil refl
split-scoped (String.◌∷◌ c s) key h = rw append.cons (ground (arith, split-scoped s key))
