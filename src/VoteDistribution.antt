-- ===== src/VoteDistribution.antt =====
-- frontend/src/hooks/useVoteDistribution.ts: the split of a vote over the three options, in percent. The
-- values are doubles, which the modals start from basis points over 100; typed values are whole
-- percentages. The hook's state changes are steps. `parsePercentage` is modelled on text, which is what
-- the hook passes it.
use solana_governance.Common.{
  ℕ, ◌+◌, ◌-◌, ◌*◌, Bool, true, false, ◌&&◌, ◌||◌, Option, none, some, List, [], ◌∷◌, min, max, leb,
  ◌==◌, if◌then◌else◌,
}
use solana_governance.Common.Text.{Text, is_digit, is_space, drop_while, trim, is_empty}
use solana_governance.Common.Double.{Double, integer, plus, minus}
use solana_governance.Common.Int.{ℤ, pos, negsuc, sub_ℕ}
pub mod Whole
pub mod Laws

pub data VoteOption : Type 0 where
  for against abstain : VoteOption

pub record VoteDistribution : Type 0 where
  pub for_share : Double
  pub against_share : Double
  pub abstain_share : Double

abbrev pub vote_options : List VoteOption
vote_options = for ∷ against ∷ abstain ∷ []

abbrev pub default_distribution : VoteDistribution
default_distribution = record { for_share = 0; against_share = 0; abstain_share = 0 }

abbrev pub total : VoteDistribution → Double
total d = plus (plus d.for_share d.against_share) d.abstain_share

-- `distribution[option]`
abbrev pub share : VoteOption → VoteDistribution → Double
share for d = d.for_share
share against d = d.against_share
share abstain d = d.abstain_share

-- `{ ...distribution, [option]: value }`
abbrev pub with_share : VoteOption → Double → VoteDistribution → VoteDistribution
with_share for v d = record d { for_share = v }
with_share against v d = record d { against_share = v }
with_share abstain v d = record d { abstain_share = v }

abbrev pub same : VoteOption → VoteOption → Bool
same for for = true
same against against = true
same abstain abstain = true
same _ _ = false

-- `Math.min(100, Math.max(0, value))`, of an integer
unfoldable pub clamp_percentage : ℤ → ℕ
clamp_percentage (pos n) = min 100 (max 0 n)
clamp_percentage (negsuc n) = 0

-- the digits that `parseInt` reads; `none` if there is none
unfoldable pub read_digits : Option ℕ → Text → Option ℕ
read_digits acc [] = acc
read_digits none (c ∷ s) =
    let rest = read_digits (some (c - b'0')) s in if is_digit c then rest else none
read_digits (some n) (c ∷ s) =
    let rest = read_digits (some (n * 10 + (c - b'0'))) s in if is_digit c then rest else some n

abbrev pub signed : Bool → Option ℕ → Option ℤ
signed negative none = none
signed true (some n) = some (sub_ℕ 0 n)
signed false (some n) = some (pos n)

read_sign : Text → Option ℤ
unfolding read_digits
read_sign [] = none
read_sign (c ∷ s) =
    if c == b'-'
    then signed true (read_digits none s)
    else if c == b'+'
    then signed false (read_digits none s)
    else signed false (read_digits none (c ∷ s))

-- `Number.parseInt(s, 10)`: white space, a sign, digits, and anything after them; `none` is NaN
unfoldable pub parse_int : Text → Option ℤ
unfolding read_sign drop_while is_space
parse_int s = read_sign (drop_while is_space s)

-- `s.replace(/^0+/, "") || "0"`
abbrev pub or_zero : Text → Text
or_zero [] = b'0' ∷ []
or_zero (c ∷ s) = c ∷ s

-- NaN counts as nothing
abbrev pub clamped : Option ℤ → ℕ
clamped none = 0
clamped (some parsed) = clamp_percentage parsed

unfoldable pub parse_percentage : Text → ℕ
parse_percentage raw =
    let trimmed = trim raw in
    if is_empty trimmed
    then 0
    else clamped (parse_int (or_zero (drop_while (λ c. c == b'0') trimmed)))

-- the loop over the options; `excess` is positive at each round
unfoldable pub take_excess :
    VoteOption → List VoteOption → VoteDistribution → Double → VoteDistribution
take_excess option [] d excess = d
take_excess option (current ∷ others) d excess =
    let reduction = min (share current d) excess in
    let reduced = with_share current (minus (share current d) reduction) d in
    let skip = take_excess option others d excess in
    let next = take_excess option others reduced (minus excess reduction) in
    if same current option
    then skip
    else if leb (share current d) 0
    then skip
    else if leb (minus excess reduction) 0
    then reduced
    else next

unfoldable pub adjust_distribution : VoteDistribution → VoteOption → Double → VoteDistribution
adjust_distribution previous option next_value =
    let distribution = with_share option next_value previous in
    if leb (total distribution) (integer 100)
    then distribution
    else take_excess option vote_options distribution (minus (total distribution) (integer 100))

unfoldable pub handle_quick_select : VoteOption → VoteDistribution
handle_quick_select option = with_share option (integer 100) default_distribution

-- what happens to the hook's state
pub data Event : Type 0 where
  option_change : VoteOption → Text → Event
  quick_select : VoteOption → Event
  reset : Option VoteDistribution → Event
  initial_changed : VoteDistribution → Event

abbrev pub or_default : Option VoteDistribution → VoteDistribution
or_default none = default_distribution
or_default (some d) = d

unfoldable pub step : VoteDistribution → Event → VoteDistribution
step d (option_change option raw) = adjust_distribution d option (integer (parse_percentage raw))
step d (quick_select option) = handle_quick_select option
step d (reset next) = or_default next
step d (initial_changed initial) = initial

unfoldable pub run : VoteDistribution → List Event → VoteDistribution
unfolding step
run d [] = d
run d (e ∷ es) = run (step d e) es

unfoldable pub is_valid_distribution : VoteDistribution → Bool
is_valid_distribution d = total d == integer 100
