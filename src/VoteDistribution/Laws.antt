-- ===== src/VoteDistribution/Laws.antt =====
-- Laws of the split of frontend/src/hooks/useVoteDistribution.ts, for whole percentages. Those of the
-- loop are proved on natural numbers first.
use solana_governance.Common.{
  ℕ, ◌+◌, ◌-◌, ◌≤◌, ◌<◌, ◌≡◌, refl, ◌∙◌, ap, ◌⊎◌, Option, none, some, arith, List, [], ◌∷◌, All,
  ◌==◌,
}
use solana_governance.Common.Double.{integer}
use solana_governance.Common.Double.Exact.{integer-zero}
use solana_governance.Common.Int.{ℤ, pos, negsuc}
use solana_governance.Common.Text.{Text, trim, drop_while}
use solana_governance.VoteDistribution.{
  VoteOption, for, against, abstain, VoteDistribution, Event, option_change, quick_select, reset,
  initial_changed, or_default, clamp_percentage, clamped, parse_int, or_zero, parse_percentage,
  adjust_distribution, handle_quick_select, step, run, with_share, vote_options,
  default_distribution,
}
use solana_governance.VoteDistribution.Whole.{
  Percentages, sum, doubles, percentage, with_percentage, taken, with_share-doubles,
  adjusted_percentages, adjust_distribution-doubles,
}

-- what the loop leaves of the two options that give way, in their order
taken-for :
    (d : Percentages) (e : ℕ)
    → 0 < e
    → taken for vote_options d e ≡ record d {
      against_percent = d.against_percent - e;
      abstain_percent = d.abstain_percent - (e - d.against_percent);
    }
unfolding taken
taken-for d e h = ground arith

taken-against :
    (d : Percentages) (e : ℕ)
    → 0 < e
    → taken against vote_options d e ≡ record d {
      for_percent = d.for_percent - e;
      abstain_percent = d.abstain_percent - (e - d.for_percent);
    }
unfolding taken
taken-against d e h = ground arith

taken-abstain :
    (d : Percentages) (e : ℕ)
    → 0 < e
    → taken abstain vote_options d e ≡ record d {
      for_percent = d.for_percent - e;
      against_percent = d.against_percent - (e - d.for_percent);
    }
unfolding taken
taken-abstain d e h = ground arith

-- An adjusted split, by the option that was set: the other two, in the order of the options, give
-- way for what is over the whole.
abbrev adjusted : Percentages → VoteOption → ℕ → Percentages
adjusted d for v =
    let e = v + d.against_percent + d.abstain_percent - 100 in
    record {
      for_percent = v;
      against_percent = d.against_percent - e;
      abstain_percent = d.abstain_percent - (e - d.against_percent);
    }
adjusted d against v =
    let e = d.for_percent + v + d.abstain_percent - 100 in
    record {
      for_percent = d.for_percent - e;
      against_percent = v;
      abstain_percent = d.abstain_percent - (e - d.for_percent);
    }
adjusted d abstain v =
    let e = d.for_percent + d.against_percent + v - 100 in
    record {
      for_percent = d.for_percent - e;
      against_percent = d.against_percent - (e - d.for_percent);
      abstain_percent = v;
    }

adjusted_percentages_lem :
    (d : Percentages) (option : VoteOption) (v : ℕ)
    → adjusted_percentages d option v ≡ adjusted d option v
unfolding adjusted_percentages
adjusted_percentages_lem d for v =
    ground (arith, taken-for (with_percentage for v d) (sum (with_percentage for v d) - 100))
adjusted_percentages_lem d against v =
    ground
      (arith, taken-against (with_percentage against v d) (sum (with_percentage against v d) - 100))
adjusted_percentages_lem d abstain v =
    ground
      (arith, taken-abstain (with_percentage abstain v d) (sum (with_percentage abstain v d) - 100))

-- The loop on natural numbers keeps the option that is set, fills the whole and lets nothing grow.
adjusted_percentages-fits :
    (p : Percentages) (option : VoteOption) (v : ℕ)
    → v ≤ 100
    → let q = adjusted_percentages p option v in
      let given = with_percentage option v p in
      (percentage option q ≡ v)
      × (sum q ≤ 100)
      × (((sum given ≤ 100) × (q ≡ given)) ⊎ ((100 < sum given) × (sum q ≡ 100)))
      × (q.for_percent ≤ given.for_percent)
      × (q.against_percent ≤ given.against_percent)
      × (q.abstain_percent ≤ given.abstain_percent)
adjusted_percentages-fits d for v h = rw (adjusted_percentages_lem d for v) (ground arith)
adjusted_percentages-fits d against v h = rw (adjusted_percentages_lem d against v) (ground arith)
adjusted_percentages-fits d abstain v h = rw (adjusted_percentages_lem d abstain v) (ground arith)

-- In doubles, for a split of whole percentages of at most the whole and a whole percentage that is
-- set: the split becomes one of whole percentages, in which the option that is set keeps its value;
-- it does not exceed the whole and fills it if the values did exceed it, nothing else changes if
-- they did not, and no other option grows.
pub adjust_distribution-fits :
    (p : Percentages) (option : VoteOption) (v : ℕ)
    → sum p ≤ 100
    → v ≤ 100
    → let given = with_percentage option v p in
      (q : Percentages) × (adjust_distribution (doubles p) option (integer v) ≡ doubles q)
      × (percentage option q ≡ v)
      × (sum q ≤ 100)
      × (((sum given ≤ 100) × (q ≡ given)) ⊎ ((100 < sum given) × (sum q ≡ 100)))
      × (q.for_percent ≤ given.for_percent)
      × (q.against_percent ≤ given.against_percent)
      × (q.abstain_percent ≤ given.abstain_percent)
adjust_distribution-fits p option v h k =
    let f = adjusted_percentages-fits p option v k in
    (
      adjusted_percentages p option v,
      adjust_distribution-doubles p option v h k,
      f.0,
      f.1,
      f.2,
      f.3,
      f.4,
      f.5,
    )

clamp_percentage-le : (z : ℤ) → clamp_percentage z ≤ 100
unfolding clamp_percentage
clamp_percentage-le (pos n) = omega arith
clamp_percentage-le (negsuc n) = omega arith

clamped-le : (parsed : Option ℤ) → clamped parsed ≤ 100
clamped-le none = omega arith
clamped-le (some z) = clamp_percentage-le z

-- Any text is read as a percentage of at most 100.
pub parse_percentage-le : (raw : Text) → parse_percentage raw ≤ 100
unfolding parse_percentage
parse_percentage-le raw =
    ground (arith, clamped-le (parse_int (or_zero (drop_while (λ c. c == b'0') (trim raw)))))

-- whole percentages that add up to at most 100
abbrev pub IsWholeSplit : VoteDistribution → Type 0
IsWholeSplit d = (p : Percentages) × (d ≡ doubles p) × (sum p ≤ 100)

-- the events carry splits of whole percentages
abbrev pub Fits : Event → Type 0
Fits (option_change option raw) = Unit
Fits (quick_select option) = Unit
Fits (reset next) = IsWholeSplit (or_default next)
Fits (initial_changed initial) = IsWholeSplit initial

abbrev nothing_chosen : Percentages
nothing_chosen = record { for_percent = 0; against_percent = 0; abstain_percent = 0 }

nothing-doubles : default_distribution ≡ doubles nothing_chosen
nothing-doubles = rw integer-zero refl

pub default-IsWholeSplit : IsWholeSplit default_distribution
default-IsWholeSplit = (nothing_chosen, nothing-doubles, omega arith)

all_for : (option : VoteOption) → sum (with_percentage option 100 nothing_chosen) ≤ 100
all_for for = omega arith
all_for against = omega arith
all_for abstain = omega arith

quick_select-IsWholeSplit : (option : VoteOption) → IsWholeSplit (handle_quick_select option)
unfolding handle_quick_select
quick_select-IsWholeSplit option = (
  with_percentage option 100 nothing_chosen,
  ap (with_share option (integer 100)) nothing-doubles
      ∙ with_share-doubles option 100 nothing_chosen,
  all_for option,
)

step-IsWholeSplit :
    (d : VoteDistribution) (e : Event) → IsWholeSplit d → Fits e → IsWholeSplit (step d e)
unfolding step
step-IsWholeSplit d (option_change option raw) (p, same, fits) f =
    let k = parse_percentage-le raw in
    let v = parse_percentage raw in
    let a = adjust_distribution-fits p option v fits k in
    (a.0, ap (λ d. adjust_distribution d option (integer v)) same ∙ a.1, a.3)
step-IsWholeSplit d (quick_select option) h f = quick_select-IsWholeSplit option
step-IsWholeSplit d (reset next) h f = f
step-IsWholeSplit d (initial_changed initial) h f = f

-- In doubles, from a split of whole percentages of at most 100 in total, every sequence of inputs,
-- quick selections, resets and new initial values leads to such a split again, if those that are set
-- from outside are such.
pub run-IsWholeSplit :
    (d : VoteDistribution) (es : List Event)
    → IsWholeSplit d
    → All Fits es
    → IsWholeSplit (run d es)
unfolding run
run-IsWholeSplit d [] h f = h
run-IsWholeSplit d (e ∷ es) h f = run-IsWholeSplit (step d e) es (step-IsWholeSplit d e h f.0) f.1
