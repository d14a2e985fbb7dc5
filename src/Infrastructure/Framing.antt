-- ===== src/Infrastructure/Framing.antt =====
-- `hash_field`, as infrastructure/operation_lock.rs, infrastructure/config.rs and
-- infrastructure/restore_state.rs write a digest's input: each field after its length.
use reprodb.Common.{
  ℕ, zero, suc, ◌*◌, ◌/◌, ◌%◌, ◌^◌, ◌<◌, ◌≡◌, refl, ap, List, [], ◌∷◌, ◌++◌, arith, length,
  length-append, All,
}

-- `to_be_bytes` of a number of so many bytes.
unfoldable pub to_be_bytes : ℕ → ℕ → List ℕ
to_be_bytes zero n = []
to_be_bytes (suc w) n = to_be_bytes w (n / 256) ++ ((n % 256) ∷ [])

-- `hasher.update((value.len() as u64).to_be_bytes()); hasher.update(value)`, before what follows.
unfoldable pub hash_field : List ℕ → List ℕ → List ℕ
unfolding to_be_bytes
hash_field value rest = to_be_bytes 8 (length value) ++ (value ++ rest)

unfoldable pub hash_fields : List (List ℕ) → List ℕ
unfolding hash_field
hash_fields [] = []
hash_fields (value ∷ values) = hash_field value (hash_fields values)

append-injective :
    (xs ys us vs : List ℕ) → length xs ≡ length ys → xs ++ us ≡ ys ++ vs → (xs ≡ ys) × (us ≡ vs)
append-injective [] [] us vs l h = (refl, h)
append-injective [] (y ∷ ys) us vs l h = absurd (omega (arith, l))
append-injective (x ∷ xs) [] us vs l h = absurd (omega (arith, l))
append-injective (x ∷ xs) (y ∷ ys) us vs l h = (
  cc (h, (append-injective xs ys us vs (omega (arith, l)) (cc)).0),
  (append-injective xs ys us vs (omega (arith, l)) (cc)).1,
)

pub prefix-injective : (p us vs : List ℕ) → p ++ us ≡ p ++ vs → us ≡ vs
prefix-injective [] us vs h = h
prefix-injective (x ∷ p) us vs h = prefix-injective p us vs (cc)

length-to_be_bytes : (w n : ℕ) → length (to_be_bytes w n) ≡ w
unfolding to_be_bytes
length-to_be_bytes zero n = refl
length-to_be_bytes (suc w) n = omega (
  arith,
  length-append (to_be_bytes w (n / 256)) ((n % 256) ∷ []),
  length-to_be_bytes w (n / 256),
)

-- Two numbers of so many bytes with the same bytes are the same.
pub to_be_bytes-injective :
    (w n m : ℕ) → n < 256 ^ w → m < 256 ^ w → to_be_bytes w n ≡ to_be_bytes w m → n ≡ m
unfolding to_be_bytes
to_be_bytes-injective zero n m hn hm h = omega arith
to_be_bytes-injective (suc w) n m hn hm h = omega (
  arith,
  to_be_bytes-injective w (n / 256) (m / 256) (omega (arith, hn, pow_suc))
      (omega (arith, hm, pow_suc)) parts.0,
  head_of (parts.1),
)
  where
    pow_suc : 256 ^ suc w ≡ 256 * 256 ^ w
    pow_suc = omega arith

    parts : (to_be_bytes w (n / 256) ≡ to_be_bytes w (m / 256)) × ((n % 256) ∷ [] ≡ (m % 256) ∷ [])
    parts =
        append-injective (to_be_bytes w (n / 256)) (to_be_bytes w (m / 256)) _ _
          (omega (arith, length-to_be_bytes w (n / 256), length-to_be_bytes w (m / 256))) h

    head_of : (n % 256) ∷ [] ≡ (m % 256) ∷ [] → n % 256 ≡ m % 256
    head_of e = cc

-- A field that fits its length.
abbrev pub Fits : List ℕ → Type 0
Fits value = length value < 256 ^ 8

pub hash_field-injective :
    (a b : List ℕ) (us vs : List ℕ)
    → Fits a
    → Fits b
    → hash_field a us ≡ hash_field b vs
    → (a ≡ b) × (us ≡ vs)
unfolding hash_field
hash_field-injective a b us vs fa fb h =
    append-injective a b us vs (to_be_bytes-injective 8 (length a) (length b) fa fb lengths.0)
      lengths.1
  where
    lengths : (to_be_bytes 8 (length a) ≡ to_be_bytes 8 (length b)) × (a ++ us ≡ b ++ vs)
    lengths =
        append-injective (to_be_bytes 8 (length a)) (to_be_bytes 8 (length b)) (a ++ us) (b ++ vs)
          (omega (arith, length-to_be_bytes 8 (length a), length-to_be_bytes 8 (length b))) h

-- No two lists of fields are written alike.
pub hash_fields-injective :
    (xs ys : List (List ℕ)) → All Fits xs → All Fits ys → hash_fields xs ≡ hash_fields ys → xs ≡ ys
unfolding hash_fields hash_field to_be_bytes
hash_fields-injective [] [] fx fy h = refl
hash_fields-injective [] (y ∷ ys) fx fy h = absurd (omega (arith, ap length h))
hash_fields-injective (x ∷ xs) [] fx fy h = absurd (omega (arith, ap length h))
hash_fields-injective (x ∷ xs) (y ∷ ys) (fx, fxs) (fy, fys) h = cc (
  (hash_field-injective x y (hash_fields xs) (hash_fields ys) fx fy h).0,
  hash_fields-injective xs ys fxs fys
      (hash_field-injective x y (hash_fields xs) (hash_fields ys) fx fy h).1,
)
