-- ===== src/Fs/Dir/Search.antt =====
-- kernel/fs.c: what the search of a directory finds.
use os_u.Prelude.{
  ◌-◌, ◌*◌, ◌↔◌, ◌&&◌, ℕ, zero, suc, ◌+◌, ◌≤◌, ◌<◌, ◌≡◌, ◌≢◌, ◌⊎◌, inl, inr, sym, ap, ◌∙◌, Bool,
  true, false, ◌||◌, Option, none, some, arith, Bytes, ◌==◌, if◌then◌else◌,
}
use native.Mathlib.Decide.{ℕ_discrete, dec_lt}
use os_u.Cstring.{memcmp}
use os_u.Cstring.Compare.{AllBytes, memcmp_iff}
use os_u.Fs.Dir.{lead, attr, same_name, note_free, scan}

-- The 11 bytes at the start of an entry are the name.
abbrev pub HasName : Bytes → Bytes → ℕ → Type 0
HasName e f11 i = (j : ℕ) → j < 11 → e (i * 32 + j) ≡ f11 j

-- What the entries say of a found index: the entry is in use, is no part of a long name and has the
-- name; no entry before it ends the directory, and each is deleted, part of a long name, or has
-- another name.
pub record IsFound (e f11 : Bytes) (n i k : ℕ) : Type 0 where
  pub from : i ≤ k
  pub before : k < i + n
  pub in_use : (lead e k ≢ 0) × (lead e k ≢ 0xE5)
  pub is_short : attr e k ≢ 0x0F
  pub named : HasName e f11 k
  pub goes_on : (j : ℕ) → i ≤ j → j < k → lead e j ≢ 0
  pub first : (j : ℕ) → i ≤ j → j < k → (lead e j ≡ 0xE5) ⊎ (attr e j ≡ 0x0F) ⊎ (¬ HasName e f11 j)

both_zero : (x y : ℕ) → ((x == 0 && y == 0) ≡ true) ↔ ((x ≡ 0) × (y ≡ 0))
both_zero x y = (λ h. ground arith, λ h. ground arith)

-- The 8 bytes of the name and the 3 of the extension are the 11 bytes.
name_parts :
    (e f11 : Bytes) (i : ℕ)
    → (((j : ℕ) → j < 8 → e (i * 32 + j) ≡ f11 (0 + j))
        × ((j : ℕ) → j < 3 → e (i * 32 + 8 + j) ≡ f11 (8 + j)))
      ↔ HasName e f11 i
name_parts e f11 i = (
  λ parts j l. elim (dec_lt j 8) [
    | yes m ↦ let to : 0 + j ≡ j = omega arith in parts.0 j m ∙ ap f11 to
    | no m ↦
        let at : i * 32 + 8 + (j - 8) ≡ i * 32 + j = omega arith in
        let to : 8 + (j - 8) ≡ j = omega arith in
        sym (ap e at) ∙ parts.1 (j - 8) (omega arith) ∙ ap f11 to
  ],
  λ same. (
    λ j l. let to : j ≡ 0 + j = omega arith in same j (omega arith) ∙ ap f11 to,
    λ j l.
        let at : i * 32 + 8 + j ≡ i * 32 + (8 + j) = omega arith in
        ap e at ∙ same (8 + j) (omega arith),
  ),
)

same_name_iff :
    (e f11 : Bytes) (i : ℕ)
    → AllBytes e
    → AllBytes f11
    → (same_name e i f11 ≡ true) ↔ HasName e f11 i
unfolding same_name
same_name_iff e f11 i h k =
    let name = memcmp_iff e (i * 32) f11 0 8 h k in
    let extension = memcmp_iff e (i * 32 + 8) f11 8 3 h k in
    let both = both_zero (memcmp e (i * 32) f11 0 8) (memcmp e (i * 32 + 8) f11 8 3) in
    (
      λ t. let (l, r) = both.0 t in (name_parts e f11 i).0 (name.0 l, extension.0 r),
      λ same. let (l, r) = (name_parts e f11 i).1 same in both.1 (name.1 l, extension.1 r),
    )

-- An entry is unused, or passed over, or has another name.
abbrev is_unused : Bytes → ℕ → Bool
is_unused e i = lead e i == 0x00 || lead e i == 0xE5

-- An entry that answers to the name.
abbrev is_match : Bytes → Bytes → ℕ → Bool
is_match e f11 i =
    if is_unused e i then false else if attr e i == 0x0F then false else same_name e i f11

-- The same by the tests of the code: the index is the first match, and no entry before it ends the
-- directory.
record IsFirst (e f11 : Bytes) (n i k : ℕ) : Type 0 where
  pub from : i ≤ k
  pub before : k < i + n
  pub matches : is_match e f11 k ≡ true
  pub first : (j : ℕ) → i ≤ j → j < k → is_match e f11 j ≡ false
  pub goes_on : (j : ℕ) → i ≤ j → j < k → lead e j ≢ 0

-- One entry of the scan.
scan-suc :
    (e f11 : Bytes) (n i : ℕ) (ff : Option ℕ)
    → ((lead e i ≡ 0) × (scan e f11 (suc n) i ff ≡ (none, note_free ff i)))
      ⊎ ((is_match e f11 i ≡ true) × (lead e i ≢ 0) × (scan e f11 (suc n) i ff ≡ (some i, ff)))
      ⊎ ((is_match e f11 i ≡ false)
          × (lead e i ≢ 0)
          × (scan e f11 (suc n) i ff
              ≡ scan e f11 n (i + 1) (if is_unused e i then note_free ff i else ff)))
unfolding scan
scan-suc e f11 n i ff = ground arith

-- An entry that is passed over before one that is found.
extend :
    (e f11 : Bytes) (n i k : ℕ)
    → is_match e f11 i ≡ false
    → lead e i ≢ 0
    → IsFirst e f11 n (i + 1) k
    → IsFirst e f11 (suc n) i k
extend e f11 n i k m u f = record {
  from = ground arith;
  before = ground arith;
  matches = f.matches;
  first = λ j lo hi. elim (ℕ_discrete j i) [ yes q ↦ cc | no q ↦ f.first j (omega arith) hi ];
  goes_on = λ j lo hi. elim (ℕ_discrete j i) [
    | yes q ↦ λ z. u (ap (lead e) (sym q) ∙ z)
    | no q ↦ f.goes_on j (omega arith) hi
  ];
}

IsFirst-here :
    (e f11 : Bytes) (n i k : ℕ) → is_match e f11 i ≡ true → i ≡ k → IsFirst e f11 (suc n) i k
IsFirst-here e f11 n i k m q = record {
  from = omega arith;
  before = omega arith;
  matches = cc;
  first = λ j lo hi. absurd (omega arith);
  goes_on = λ j lo hi. absurd (omega arith);
}

of_some : (i k : ℕ) → some i ≡ some k → i ≡ k
of_some i k h = cc

of_none : (k : ℕ) → none ≡ some k → ⊥
of_none k h = cc

scan-IsFirst :
    (e f11 : Bytes) (n i : ℕ) (ff : Option ℕ) (k : ℕ)
    → (scan e f11 n i ff).0 ≡ some k
    → IsFirst e f11 n i k
unfolding scan
scan-IsFirst e f11 zero i ff k h = absurd (of_none k h)
scan-IsFirst e f11 (suc n) i ff k h = elim (scan-suc e f11 n i ff) [
  | inl (z, run) ↦ absurd (of_none k (sym (ap (λ r. r.0) run) ∙ h))
  | inr (inl (m, u, run)) ↦ IsFirst-here e f11 n i k m (of_some i k (sym (ap (λ r. r.0) run) ∙ h))
  | inr (inr (m, u, run)) ↦ extend e f11 n i k m u (
      scan-IsFirst e f11 n (i + 1) (if is_unused e i then note_free ff i else ff) k
        (sym (ap (λ r. r.0) run) ∙ h))
]

match_fields :
    (e f11 : Bytes) (i : ℕ)
    → is_match e f11 i ≡ true
    → ((lead e i ≢ 0) × (lead e i ≢ 0xE5)) × (attr e i ≢ 0x0F) × (same_name e i f11 ≡ true)
match_fields e f11 i h = ground arith

passed_over :
    (e f11 : Bytes) (i : ℕ)
    → AllBytes e
    → AllBytes f11
    → lead e i ≢ 0
    → is_match e f11 i ≡ false
    → (lead e i ≡ 0xE5) ⊎ (attr e i ≡ 0x0F) ⊎ (¬ HasName e f11 i)
passed_over e f11 i h h' u m = elim (ℕ_discrete (lead e i) 0xE5) [
  | yes q ↦ inl q
  | no q ↦ elim (ℕ_discrete (attr e i) 0x0F) [
    | yes r ↦ inr (inl r)
    | no r ↦
        let other : HasName e f11 i → ⊥ = λ named.
          let same = (same_name_iff e f11 i h h').1 named in
          absurd (ground (arith, m, same, u, q, r)) in
        inr (inr other)
  ]
]

-- In a directory of bytes, the search for 11 bytes gives an index only of the first entry, before the
-- end of the directory, that is in use, is no part of a long name and begins with these bytes.
pub scan-IsFound :
    (e f11 : Bytes) (n i : ℕ) (ff : Option ℕ) (k : ℕ)
    → AllBytes e
    → AllBytes f11
    → (scan e f11 n i ff).0 ≡ some k
    → IsFound e f11 n i k
scan-IsFound e f11 n i ff k h h' r =
    let f = scan-IsFirst e f11 n i ff k r in
    let (in_use, is_short, same) = match_fields e f11 k f.matches in
    record {
      from = f.from;
      before = f.before;
      in_use = in_use;
      is_short = is_short;
      named = (same_name_iff e f11 k h h').0 same;
      goes_on = f.goes_on;
      first = λ j lo hi. passed_over e f11 j h h' (f.goes_on j lo hi) (f.first j lo hi);
    }
