-- ===== src/Schema/TypeName/RoundTrip.antt =====
-- The names of field types in src/schema.rs against their parser.
use data_spark.Prelude.{
  ℕ, zero, suc, ◌≤◌, ◌<◌, Bool, true, false, not, ◌&&◌, ◌||◌, Option, none, some, [], ◌∷◌, ◌++◌,
  ◌≡◌, refl, sym, ap, ◌∙◌, ◌↔◌, inl, inr, arith, leb, ◌==◌, if◌then◌else◌, Bool-cases, Option-cases,
}
use mathlib.Core.List.{append_assoc}
use data_spark.Schema.Types.{FieldType}
use data_spark.Schema.TypeName.{
  Bytes, bytes, same_bytes, show_u8, name, parse_canonical_u8, strip_prefix, strip_last, split_once,
  bounded, parse_decimal_type_name, parse_type_name, ◌>>=◌,
}

-- What a schema may declare: any type, a decimal within its bounds.
abbrev pub IsDeclarable : FieldType → Type 0
IsDeclarable (FieldType.decimal precision scale) =
    (1 ≤ precision) × (precision ≤ 38) × (scale ≤ precision)
IsDeclarable _ = Unit

pub same_bytes_lem : (s t : Bytes) → same_bytes s t ≡ true → s ≡ t
same_bytes_lem [] [] h = refl
same_bytes_lem [] (b ∷ t) h = cc
same_bytes_lem (a ∷ s) [] h = cc
same_bytes_lem (a ∷ s) (b ∷ t) h = ground (arith, same_bytes_lem s t)

-- The table of a test: its value at each number under the limit.
unfoldable pub passes_under : (ℕ → Bool) → ℕ → Bool
passes_under test zero = true
passes_under test (suc limit) = passes_under test limit && test limit

-- A test whose table is all true holds of every number under the limit.
pub passes_at :
    (test : ℕ → Bool) (limit number : ℕ)
    → number < limit
    → passes_under test limit ≡ true
    → test number ≡ true
unfolding passes_under
passes_at test zero number under table = absurd (omega arith)
passes_at test (suc limit) number under table = ground (arith, passes_at test limit number)

abbrev pub is_decimal : ℕ → ℕ → Option FieldType → Bool
is_decimal p s (some (FieldType.decimal p' s')) = p == p' && s == s'
is_decimal p s _ = false

pub is_decimal_lem :
    (p s : ℕ) (o : Option FieldType) → is_decimal p s o ≡ true → o ≡ some (FieldType.decimal p s)
is_decimal_lem p s o h = ground arith

-- The test of one decimal; outside the bounds there is nothing to test.
abbrev reads_back : ℕ → ℕ → Bool
reads_back p s =
    not (leb 1 p && leb s p) || is_decimal p s (parse_type_name (name (FieldType.decimal p s)))

decimal_table : passes_under (λ p. passes_under (reads_back p) 39) 39 ≡ true
unfolding passes_under parse_type_name name
decimal_table = refl

decimal_reads_back :
    (p s : ℕ)
    → IsDeclarable (FieldType.decimal p s)
    → parse_type_name (name (FieldType.decimal p s)) ≡ some (FieldType.decimal p s)
decimal_reads_back p s (lo, hi, le) = is_decimal_lem p s _ (
    ground (
      arith,
      passes_at (reads_back p) 39 s (omega arith)
          (passes_at (λ q. passes_under (reads_back q) 39) 39 p (omega arith) decimal_table),
    ))

name_reads_back : (t : FieldType) → IsDeclarable t → parse_type_name (name t) ≡ some t
unfolding parse_type_name name
name_reads_back (FieldType.decimal p s) h = decimal_reads_back p s h
name_reads_back FieldType.boolean h = refl
name_reads_back FieldType.int64 h = refl
name_reads_back FieldType.float64 h = refl
name_reads_back FieldType.utf8 h = refl
name_reads_back FieldType.timestamp h = refl
name_reads_back FieldType.timestamptz h = refl

strip_prefix_lem :
    (prefix text rest : Bytes) → strip_prefix prefix text ≡ some rest → text ≡ prefix ++ rest
unfolding strip_prefix
strip_prefix_lem [] text rest h = ground arith
strip_prefix_lem (p ∷ prefix) [] rest h = cc
strip_prefix_lem (p ∷ prefix) (b ∷ text) rest h = ground (arith, strip_prefix_lem prefix text rest)

strip_last_lem :
    (c : ℕ) (text front : Bytes) → strip_last c text ≡ some front → text ≡ front ++ c ∷ []
unfolding strip_last
strip_last_lem c [] front h = cc
strip_last_lem c (b ∷ []) front h = ground arith
strip_last_lem c (b ∷ b' ∷ text) front h = elim (Option-cases (strip_last c (b' ∷ text))) [
  | inl e ↦ ground (arith, e)
  | inr (f, e) ↦ ground (arith, e, strip_last_lem c (b' ∷ text) f e)
]

split_once_lem :
    (c : ℕ) (text before after : Bytes)
    → split_once c text ≡ some (before, after)
    → text ≡ before ++ c ∷ after
unfolding split_once
split_once_lem c [] before after h = cc
split_once_lem c (b ∷ text) before after h = elim (Option-cases (split_once c text)) [
  | inl e ↦ ground (arith, e)
  | inr ((f, r), e) ↦ ground (arith, e, split_once_lem c text f r e)
]

-- A canonical spelling is the spelling of its value.
canonical_lem : (text : Bytes) (n : ℕ) → parse_canonical_u8 text ≡ some n → show_u8 n ≡ text
unfolding parse_canonical_u8 show_u8
canonical_lem [] n h = cc
canonical_lem (a ∷ []) n h = ground arith
canonical_lem (a ∷ b ∷ []) n h = ground arith
canonical_lem (a ∷ b ∷ c ∷ []) n h = ground arith
canonical_lem (a ∷ b ∷ c ∷ d ∷ text) n h = absurd (ground arith)

>>=-eq-some :
    {A B : Type 0} (m : Option A) (f : A → Option B) {b : B}
    → (m >>= f) ≡ some b
    → (a : A) × (m ≡ some a) × (f a ≡ some b)
>>=-eq-some none f h = cc
>>=-eq-some (some a) f h = (a, refl, h)

bounded_lem :
    (p s : ℕ) (t : FieldType)
    → bounded p s ≡ some t
    → (t ≡ FieldType.decimal p s) × IsDeclarable (FieldType.decimal p s)
unfolding bounded
bounded_lem p s t h = ground arith

decimal_canonical :
    (text : Bytes) (t : FieldType)
    → parse_decimal_type_name text ≡ some t
    → (name t ≡ text) × IsDeclarable t
unfolding parse_decimal_type_name
decimal_canonical text t h =
    let (opened, e1, h1) = >>=-eq-some (strip_prefix (bytes "decimal(") text) _ h in
    let (parameters, e2, h2) = >>=-eq-some (strip_last b')' opened) _ h1 in
    let (split, e3, h3) = >>=-eq-some (split_once b',' parameters) _ h2 in
    let (p, e4, h4) = >>=-eq-some (parse_canonical_u8 split.0) _ h3 in
    let (s, e5, h5) = >>=-eq-some (parse_canonical_u8 split.1) _ h4 in
    let (e6, ok) = bounded_lem p s t h5 in
    let q4 = canonical_lem split.0 p e4 in
    let q5 = canonical_lem split.1 s e5 in
    let q1 = strip_prefix_lem (bytes "decimal(") text opened e1 in
    let q2 = strip_last_lem b')' opened parameters e2 in
    let q3 = split_once_lem b',' parameters split.0 split.1 e3 in
    rw e6 (
      spelled p s split.0 split.1 q4 q5 ∙ sym (rebuilt opened parameters split.0 split.1 q1 q2 q3),
      ok,
    )
  where
    spelled :
        (p s : ℕ) (before after : Bytes)
        → show_u8 p ≡ before
        → show_u8 s ≡ after
        → name (FieldType.decimal p s)
          ≡ bytes "decimal(" ++ (before ++ (b',' ∷ (after ++ (b')' ∷ []))))
    spelled p s before after q4 q5 = rw (← q4, ← q5) (unfold name in refl)

    rebuilt :
        (opened parameters before after : Bytes)
        → text ≡ bytes "decimal(" ++ opened
        → opened ≡ parameters ++ b')' ∷ []
        → parameters ≡ before ++ b',' ∷ after
        → text ≡ bytes "decimal(" ++ (before ++ (b',' ∷ (after ++ (b')' ∷ []))))
    rebuilt opened parameters before after q1 q2 q3 =
        q1
        ∙ ap (λ o. bytes "decimal(" ++ o)
            (q2 ∙ ap (λ q. q ++ b')' ∷ []) q3 ∙ append_assoc before (b',' ∷ after) (b')' ∷ []))

-- One arm of the `match` on the plain names.
plain_arm :
    (text lit : Bytes) (u t : FieldType) (rest : Option FieldType)
    → name u ≡ lit
    → IsDeclarable u
    → (rest ≡ some t → (name t ≡ text) × IsDeclarable t)
    → (if same_bytes text lit then some u else rest) ≡ some t
    → (name t ≡ text) × IsDeclarable t
plain_arm text lit u t rest e ok later h = elim (Bool-cases (same_bytes text lit)) [
  | inl hit ↦
      let this : some u ≡ some t = rw hit at h in
      let same : u ≡ t = cc in let equal = same_bytes_lem text lit hit in rw (← same, equal) (e, ok)
  | inr miss ↦ later (rw miss at h)
]

name_canonical :
    (text : Bytes) (t : FieldType)
    → parse_type_name text ≡ some t
    → (name t ≡ text) × IsDeclarable t
unfolding parse_type_name name
name_canonical text t = plain_arm text _ FieldType.boolean t _ refl tt (
    plain_arm text _ FieldType.int64 t _ refl tt (
      plain_arm text _ FieldType.float64 t _ refl tt (
        plain_arm text _ FieldType.utf8 t _ refl tt (
          plain_arm text _ FieldType.timestamp t _ refl tt
            (plain_arm text _ FieldType.timestamptz t _ refl tt (decimal_canonical text t))))))

-- A text is accepted as the name of a type exactly if the type may be declared (a decimal: with a
-- precision from 1 to 38 and a scale of at most the precision) and the text is its name, byte for
-- byte.
pub parse_type_name_iff :
    (text : Bytes) (t : FieldType)
    → (parse_type_name text ≡ some t) ↔ ((name t ≡ text) × IsDeclarable t)
parse_type_name_iff text t = (name_canonical text t, λ h. rw (← h.0) (name_reads_back t h.1))
