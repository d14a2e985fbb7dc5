-- ===== src/Infrastructure/OperationLock/Distinct.antt =====
-- The keys of different operations are digests of different inputs, and one key has one holder.
use reprodb.Common.{ℕ, ◌≡◌, ◌≢◌, refl, sym, ap, ◌∙◌, true, List, arith, All, ok, if◌then◌else◌}
use reprodb.Common.Text.{Text, codes, text_eq, text_eq_iff}
use reprodb.Infrastructure.Framing.{
  Fits, hash_fields, hash_field-injective, hash_fields-injective, prefix-injective,
}
use reprodb.Infrastructure.OperationLock.{
  OperationLockScope, source, target, remote, directory, OperationLockKey, key_input, same_key,
  LockFile, opens, open_fails, lock_fails, Held, try_acquire,
}

directory-Fits : (scope : OperationLockScope) → Fits (directory scope)
unfolding directory
directory-Fits source = omega arith
directory-Fits target = omega arith
directory-Fits remote = omega arith

scope_of : Text → OperationLockScope
scope_of name =
    if text_eq name (codes "source")
    then source
    else if text_eq name (codes "target")
    then target
    else remote

scope_of-directory : (scope : OperationLockScope) → scope_of (directory scope) ≡ scope
unfolding scope_of directory text_eq
scope_of-directory source = refl
scope_of-directory target = refl
scope_of-directory remote = refl

directory-injective : (a b : OperationLockScope) → directory a ≡ directory b → a ≡ b
directory-injective a b h = sym (scope_of-directory a) ∙ ap scope_of h ∙ scope_of-directory b

-- The locks of two operations hash the same input only where their scopes and all their fields agree:
-- no field can run into the next.
pub key_input-injective :
    (a b : OperationLockScope) (xs ys : List (List ℕ))
    → All Fits xs
    → All Fits ys
    → key_input a xs ≡ key_input b ys
    → (a ≡ b) × (xs ≡ ys)
unfolding key_input
key_input-injective a b xs ys fx fy h =
    (directory-injective a b fields.0, hash_fields-injective xs ys fx fy fields.1)
  where
    fields : (directory a ≡ directory b) × (hash_fields xs ≡ hash_fields ys)
    fields =
        hash_field-injective (directory a) (directory b) (hash_fields xs) (hash_fields ys)
          (directory-Fits a) (directory-Fits b)
          (prefix-injective (codes "reprodb-operation-lock-v1") _ _ h)

same_key-reflexive : (key : OperationLockKey) → same_key key key ≡ true
unfolding same_key
same_key-reflexive key =
    rw
      (
        (text_eq_iff (directory key.scope) (directory key.scope)).1 refl,
        (text_eq_iff key.digest key.digest).1 refl,
      )
      refl

-- While an operation holds a lock, a second attempt on it is refused as busy or fails, and changes
-- nothing, however the files answer.
pub try_acquire-exclusive :
    (file again : LockFile) (key : OperationLockKey) (held : Held)
    → (try_acquire file key held).0 ≡ ok tt
    → ((try_acquire again key (try_acquire file key held).1).0 ≢ ok tt)
      × ((try_acquire again key (try_acquire file key held).1).1 ≡ (try_acquire file key held).1)
unfolding try_acquire
try_acquire-exclusive file open_fails key held h = (λ e. cc, refl)
try_acquire-exclusive file lock_fails key held h = (λ e. cc, refl)
try_acquire-exclusive open_fails opens key held h = absurd (cc)
try_acquire-exclusive lock_fails opens key held h = absurd (cc)
try_acquire-exclusive opens opens key held h = ground (arith, h, same_key-reflexive key)
