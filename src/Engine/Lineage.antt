-- ===== src/Engine/Lineage.antt =====
-- crates/shard-stream-engine/src/query_lineage.rs: the packed word of a source, with a denied bit on
-- top, a revision of 31 bits and a count of active mutations of 32 bits. Any thread may change the word
-- between the load of a call and its one compare-exchange, which then fails and denies the source.
pub mod Revision
use shard_stream.Prelude.{
  ℕ, ◌+◌, ◌-◌, ◌*◌, ◌/◌, ◌%◌, Bool, true, false, ◌||◌, ◌&&◌, Option, none, some, ltb, leb, ◌==◌,
  if◌then◌else◌,
}

abbrev pub active_step : ℕ
active_step = 4294967296

abbrev pub denied_bit : ℕ
denied_bit = 9223372036854775808

abbrev pub is_denied : ℕ → Bool
is_denied word = leb denied_bit word

-- The active count is all ones, or the revision is.
abbrev pub is_exhausted : ℕ → Bool
is_exhausted word =
    word % active_step == active_step - 1 || word % denied_bit / active_step == 2147483647

unfoldable pub capture : ℕ → Option ℕ
capture word = if ltb word denied_bit && word % active_step == 0 then some word else none

unfoldable pub deny : ℕ → ℕ
deny word = if is_denied word then word else word + denied_bit

-- The denial that is still due after a failed compare-exchange.
pub deny_if : Bool → ℕ → ℕ
deny_if due word = if due then deny word else word

-- `begin` up to its compare-exchange: `before` is the word that it loaded and `now` the word that the
-- compare-exchange finds, after what other threads did in between. The answer says whether the
-- source is still to be denied, and the word is what the compare-exchange leaves.
unfoldable pub begin_exchange : ℕ → ℕ → Bool × ℕ
begin_exchange before now =
    if is_denied before
    then (false, now)
    else if is_exhausted before
    then (true, now)
    else if now == before
    then (false, before + active_step + 1)
    else (true, now)

unfoldable pub finish_exchange : ℕ → ℕ → Bool × ℕ
finish_exchange before now =
    if is_denied before
    then (false, now)
    else if before % active_step == 0
    then (true, now)
    else if now == before
    then (false, before - 1)
    else (true, now)

-- The whole call, when no other thread comes between its compare-exchange and its denial.
unfoldable pub begin : ℕ → ℕ → ℕ
unfolding begin_exchange deny_if deny
begin before now = let (due, word) = begin_exchange before now in deny_if due word

unfoldable pub finish : ℕ → ℕ → ℕ
unfolding finish_exchange deny_if deny
finish before now = let (due, word) = finish_exchange before now in deny_if due word

-- The call as a handler of the coordinator makes it, when the word that it loads is the word that its
-- compare-exchange finds.
abbrev pub begin_alone : ℕ → ℕ
begin_alone word = begin word word

abbrev pub finish_alone : ℕ → ℕ
finish_alone word = finish word word
