-- ===== src/Engine/Control/Policy.antt =====
-- A replication policy only moves forward, and after its event is synced (coordinator.rs).
use shard_stream.Prelude.{
  ℕ, ◌<◌, ◌≡◌, ◌⊎◌, inl, inr, refl, ap, sym, ◌∙◌, subst, Option, none, some, arith,
}
use shard_stream.Core.Model.{TopicPartition}
use shard_stream.Engine.Model.{
  EngineError, PartitionReplicationPolicy, Journal, update_replication_policy_event,
}
use shard_stream.Engine.Partition.{
  PartitionState, reset_cached_watermarks_after_truncate, advance_cached_watermarks,
}
use shard_stream.Engine.Partition.Watermarks.{
  IsCurrent, reset_cached_watermarks_after_truncate-IsCurrent,
}
use shard_stream.Engine.Control.{update_replication_policy, apply_policy, refuse_policy}

-- What an update may do to the policy.
pub record Advances (s : PartitionState) (journal : Journal) (tp : TopicPartition) (expected : ℕ)
    (policy : PartitionReplicationPolicy) (t : PartitionState) : Type 0 where
  pub fenced : s.replication_policy.policy_generation ≡ expected
  pub forward : expected < policy.policy_generation
  pub synced : journal (update_replication_policy_event tp expected policy) ≡ none
  pub installed : t.replication_policy ≡ policy

pub update_state :
    (s : PartitionState) (journal : Journal) (tp : TopicPartition) (expected : ℕ)
    (policy : PartitionReplicationPolicy)
    → let t = (update_replication_policy s journal tp expected policy).1 in
      (t ≡ s)
      ⊎ ((s.replication_policy.policy_generation ≡ expected)
          × (expected < policy.policy_generation)
          × (t
              ≡ (apply_policy s policy
                  (journal (update_replication_policy_event tp expected policy))).1))
unfolding update_replication_policy refuse_policy
update_state s journal tp expected policy = ground arith

apply_policy_lem :
    (s : PartitionState) (policy : PartitionReplicationPolicy) (answer : Option EngineError)
    → let t = (apply_policy s policy answer).1 in
      (t ≡ record s { query_lineage = t.query_lineage })
      ⊎ ((answer ≡ none) × (t.replication_policy ≡ policy))
unfolding apply_policy reset_cached_watermarks_after_truncate advance_cached_watermarks
apply_policy_lem s policy (some e) = inl refl
apply_policy_lem s policy none = inr (refl, refl)

-- On every branch an update leaves the partition as it was, but for the lineage word, or installs a
-- policy of a later generation in place of the expected one, after its event is synced.
pub update_replication_policy-Advances :
    (s : PartitionState) (journal : Journal) (tp : TopicPartition) (expected : ℕ)
    (policy : PartitionReplicationPolicy)
    → let t = (update_replication_policy s journal tp expected policy).1 in
      (t ≡ record s { query_lineage = t.query_lineage }) ⊎ Advances s journal tp expected policy t
update_replication_policy-Advances s journal tp expected policy =
    elim (update_state s journal tp expected policy) [
      | inl same ↦ inl (same ∙ ap (λ u. record s { query_lineage = u.query_lineage }) (sym same))
      | inr (fenced, forward, applied) ↦
          let answer = journal (update_replication_policy_event tp expected policy) in
          elim (apply_policy_lem s policy answer) [
            | inl refused ↦ inl (
                applied
                ∙ refused
                ∙ ap (λ u. record s { query_lineage = u.query_lineage }) (sym applied))
            | inr (synced, installed) ↦ inr (record {
              fenced = fenced;
              forward = forward;
              synced = synced;
              installed = ap (λ u. u.replication_policy) applied ∙ installed;
            })
          ]
    ]

applied-IsCurrent :
    (s : PartitionState) (policy : PartitionReplicationPolicy) (answer : Option EngineError)
    → IsCurrent s
    → IsCurrent (apply_policy s policy answer).1
unfolding apply_policy
applied-IsCurrent s policy (some e) c = record {
  valid = c.valid;
  cached = record {
    contiguous = c.cached.contiguous;
    stable = c.cached.stable;
    replicated = c.cached.replicated;
  };
}
applied-IsCurrent s policy none c = reset_cached_watermarks_after_truncate-IsCurrent _ c.valid

-- Whatever it returns, an update leaves the watermarks up to date under the policy then in force.
pub update_replication_policy-IsCurrent :
    (s : PartitionState) (journal : Journal) (tp : TopicPartition) (expected : ℕ)
    (policy : PartitionReplicationPolicy)
    → IsCurrent s
    → IsCurrent (update_replication_policy s journal tp expected policy).1
update_replication_policy-IsCurrent s journal tp expected policy c =
    elim (update_state s journal tp expected policy) [
      | inl same ↦ subst IsCurrent (sym same) c
      | inr (fenced, forward, applied) ↦
          subst IsCurrent (sym applied) (applied-IsCurrent s policy _ c)
    ]
