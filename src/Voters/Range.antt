-- ===== src/Voters/Range.antt =====
-- The buttons of the pages of frontend/src/components/TopVoters.tsx.
use solana_governance.Common.{
  ℕ, zero, suc, ◌+◌, ◌-◌, ◌≤◌, ◌<◌, min, max, ◌≡◌, refl, ap, ◌⊎◌, inl, inr, Bool, true, false, ◌||◌,
  List, [], ◌∷◌, ◌++◌, length, ltb, ◌==◌, arith, ltb→lt, lt→ltb, Bool-cases, length-append,
}
use solana_governance.Voters.{PageItem, page, gap, pages_from, when, get_pagination_range}

-- behind the button of a page the next page follows, or a gap and a later page, up to the last
abbrev pub Follows : (last shown : ℕ) → List PageItem → Type 0
Follows last shown [] = shown ≡ last
Follows last shown (page i ∷ items) = (i ≡ suc shown) × Follows last i items
Follows last shown (gap ∷ page i ∷ items) = (suc shown < i) × Follows last i items
Follows last shown (gap ∷ gap ∷ items) = ⊥
Follows last shown (gap ∷ []) = ⊥

abbrev pub shows : ℕ → List PageItem → Bool
shows p [] = false
shows p (gap ∷ items) = shows p items
shows p (page i ∷ items) = i == p || shows p items

pages_from-Follows :
    (last shown count : ℕ) (items : List PageItem)
    → Follows last (shown + count) items
    → Follows last shown (pages_from (suc shown) count ++ items)
unfolding pages_from
pages_from-Follows last shown zero items f =
    let same : shown + 0 ≡ shown = omega arith in rw same at f
pages_from-Follows last shown (suc count) items f =
    let same : shown + suc count ≡ suc shown + count = omega arith in
    (refl, pages_from-Follows last (suc shown) count items (rw same at f))

pages_from-shows :
    (p first count : ℕ) (items : List PageItem)
    → first ≤ p
    → p < first + count
    → shows p (pages_from first count ++ items) ≡ true
unfolding pages_from
pages_from-shows p first zero items a b = absurd (omega (arith, a, b))
pages_from-shows p first (suc count) items a b = elim (Bool-cases (first == p)) [
  | inl e ↦ ground (arith, e)
  | inr e ↦ ground (arith, e, pages_from-shows p (suc first) count items)
]

length-pages_from : (first count : ℕ) → length (pages_from first count) ≡ count
unfolding pages_from
length-pages_from first zero = refl
length-pages_from first (suc count) = ap suc (length-pages_from (suc first) count)

-- what follows the loop
abbrev ending : (last right : ℕ) → List PageItem
ending last right = when (ltb right (last - 1)) gap ++ when (ltb 1 last) (page last)

ending-Follows :
    (last right : ℕ) → 1 ≤ right → right < last → Follows last right (ending last right)
ending-Follows last right a b =
    ends (ltb right (last - 1)) (ltb 1 last) (λ h. omega (arith, ltb→lt right (last - 1) h, a, b))
      (λ h. ground (arith, h, a, b)) (lt→ltb 1 last (omega (arith, a, b)))
  where
    ends :
        (b c : Bool)
        → (b ≡ true → suc right < last)
        → (b ≡ false → last ≡ suc right)
        → c ≡ true
        → Follows last right (when b gap ++ when c (page last))
    ends true true h k l = (h refl, refl)
    ends false true h k l = (k refl, refl)
    ends b false h k l = absurd (cc)

-- what follows the first button
abbrev rest : (last left right : ℕ) → List PageItem
rest last left right =
    when (ltb 2 left) gap ++ (pages_from left ((right + 1) - left) ++ ending last right)

rest-Follows :
    (last left right : ℕ)
    → (left ≤ right) ⊎ (left ≡ 2)
    → 2 ≤ left
    → 1 ≤ right
    → right < last
    → Follows last 1 (rest last left right)
unfolding pages_from
rest-Follows last left right a t c d = elim (Bool-cases (ltb 2 left)) [
  | inl h ↦ rw h (far (ltb→lt 2 left h))
  | inr h ↦ rw h (near (ground (arith, h, t)))
]
  where
    far :
        2 < left
        → Follows last 1 (gap ∷ (pages_from left ((right + 1) - left) ++ ending last right))
    far h =
        let below : left ≤ right = ground (arith, a, h) in
        let count : (right + 1) - left ≡ suc (right - left) = omega (arith, below) in
        let same : left + (right - left) ≡ right = omega (arith, below) in
        rw count (
          h,
          pages_from-Follows last left (right - left) (ending last right)
              (rw same (ending-Follows last right c d)),
        )

    near : left ≡ 2 → Follows last 1 (pages_from left ((right + 1) - left) ++ ending last right)
    near h =
        let same : 1 + ((right + 1) - 2) ≡ right = omega (arith, c) in
        rw h (
          pages_from-Follows last 1 ((right + 1) - 2) (ending last right)
            (rw same (ending-Follows last right c d)))

shows-append : (p : ℕ) (xs ys : List PageItem) → shows p ys ≡ true → shows p (xs ++ ys) ≡ true
shows-append p [] ys h = h
shows-append p (gap ∷ xs) ys h = shows-append p xs ys h
shows-append p (page i ∷ xs) ys h = ground (arith, shows-append p xs ys h)

length-when : (b : Bool) (item : PageItem) → length (when b item) ≤ 1
length-when true item = omega arith
length-when false item = omega arith

length-rest : (last left right : ℕ) → right ≤ left + 4 → length (rest last left right) ≤ 8
length-rest last left right h =
    let tail = ending last right in
    let count = (right + 1) - left in
    let loop = pages_from left count in
    omega (
      arith,
      length-append (when (ltb 2 left) gap) (loop ++ tail),
      length-append loop tail,
      length-append (when (ltb right (last - 1)) gap) (when (ltb 1 last) (page last)),
      length-pages_from left count,
      length-when (ltb 2 left) gap,
      length-when (ltb right (last - 1)) gap,
      length-when (ltb 1 last) (page last),
      h,
    )

-- the last page is shown behind the loop
ending-shows : (last right : ℕ) → 1 < last → shows last (ending last right) ≡ true
ending-shows last right h =
    shows-append last (when (ltb right (last - 1)) gap) (when (ltb 1 last) (page last))
      (rw (lt→ltb 1 last h) (ground arith))

rest-shows :
    (p last left right : ℕ)
    → left ≤ p
    → 1 < last
    → (p ≡ last) ⊎ (p ≤ right)
    → shows p (rest last left right) ≡ true
rest-shows p last left right a b c =
    shows-append p (when (ltb 2 left) gap)
      (pages_from left ((right + 1) - left) ++ ending last right) (behind c)
  where
    behind :
        (p ≡ last) ⊎ (p ≤ right)
        → shows p (pages_from left ((right + 1) - left) ++ ending last right) ≡ true
    behind (inl e) =
        shows-append p (pages_from left ((right + 1) - left)) (ending last right)
          (rw e (ending-shows last right b))
    behind (inr e) =
        pages_from-shows p left ((right + 1) - left) (ending last right) a (omega (arith, a, e))

abbrev left_of : ℕ → ℕ
left_of p = max 2 (p - 2)

abbrev right_of : (p t : ℕ) → ℕ
right_of p t = min (t - 1) (p + 2)

one_or_more : (p t : ℕ) → 1 ≤ p → p ≤ t → ((p ≡ 1) × (t ≡ 1)) ⊎ (2 ≤ t)
one_or_more p t a b = ground arith

left_side : (p t : ℕ) → p ≤ t → 2 ≤ t → (left_of p ≤ right_of p t) ⊎ (left_of p ≡ 2)
left_side p t b c = ground arith

range-Follows : (p t : ℕ) → 1 ≤ p → p ≤ t → Follows t 1 (rest t (left_of p) (right_of p t))
unfolding pages_from
range-Follows p t a b = elim (one_or_more p t a b) [
  | inl (e, f) ↦ rw (e, f) refl
  | inr c ↦
      rest-Follows t (left_of p) (right_of p t) (left_side p t b c) (omega arith)
        (omega (arith, a, b, c)) (omega (arith, a, b, c))
]

range-shows :
    (p t : ℕ) → 1 ≤ p → p ≤ t → shows p (page 1 ∷ rest t (left_of p) (right_of p t)) ≡ true
range-shows p t a b = elim (Bool-cases (1 == p)) [
  | inl e ↦ ground (arith, e)
  | inr e ↦
      let more : 2 ≤ p = ground (arith, e, a) in
      rw e (
        rest-shows p t (left_of p) (right_of p t) (omega (arith, more)) (omega (arith, more, b))
          (ground (arith, b)))
]

-- For a page that exists, the buttons begin with page 1, each is followed by that of the next page or
-- by a gap and that of a later one, up to the last page; the page is among them, and there are at most nine.
pub get_pagination_range_complete :
    (current_page total_pages : ℕ)
    → 1 ≤ current_page
    → current_page ≤ total_pages
    → (items : List PageItem) × (get_pagination_range current_page total_pages ≡ page 1 ∷ items)
      × Follows total_pages 1 items
      × (shows current_page (page 1 ∷ items) ≡ true)
      × (length items ≤ 8)
unfolding get_pagination_range
get_pagination_range_complete p t a b = (
  rest t (max 2 (p - 2)) (min (t - 1) (p + 2)),
  refl,
  range-Follows p t a b,
  range-shows p t a b,
  length-rest t (max 2 (p - 2)) (min (t - 1) (p + 2)) (omega (arith, a, b)),
)
