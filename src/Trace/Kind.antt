-- ===== src/Trace/Kind.antt =====
-- The kinds of events of src/media_trace.rs and their categories.
use vvmux.Prelude.{ℕ, Bool, true, false, Option}
use vvmux.Prelude.Int.{ℤ}

pub data MediaTraceCategory : Type 0 where
  bridge projection playback recovery delivery : MediaTraceCategory

pub data MediaPlaybackControl : Type 0 where
  play pause eos : MediaPlaybackControl

pub data MediaKeyframeStage : Type 0 where
  outer_requested producer_forwarded producer_damped producer_ignored : MediaKeyframeStage

-- `BridgePlayRequest` of src/ipc.rs.
pub record BridgePlayRequest : Type 0 where
  pub start_pts_us : ℤ
  pub minimum_buffer_us : ℕ
  pub maximum_latency_us : ℕ
  pub rate_32_32 : ℤ
  pub late_policy : ℕ
  pub loop_count : ℕ
  pub start_policy : ℕ

pub data MediaTraceKind : Type 0 where
  bridge_client_attached : (vivid : Bool) → MediaTraceKind
  bridge_client_detached : MediaTraceKind
  projection_submitted : (virtual_revision source_count node_count : ℕ) → MediaTraceKind
  projection_applied :
      (virtual_revision bridge_local_revision attachment_count : ℕ) → MediaTraceKind
  source_visibility : (visible : Bool) (virtual_revision : ℕ) → MediaTraceKind
  outer_source_recreated : (attachment_generation : ℕ) (playing : Bool) → MediaTraceKind
  outer_source_removed : MediaTraceKind
  playback_control : MediaPlaybackControl → (request : Option BridgePlayRequest) → MediaTraceKind
  playback_state : (state eos_state : ℕ) → MediaTraceKind
  keyframe_request : MediaKeyframeStage → (minimum_epoch : Option ℕ) → (reason : ℕ) → MediaTraceKind
  keyframe_recovered : (epoch : ℕ) (pts_us : ℤ) → MediaTraceKind
  keyframe_delivery : (delivery_id : ℕ) (delivered : Bool) (epoch : ℕ) (pts_us : ℤ) → MediaTraceKind
  snapshot_retry source_lost : MediaTraceKind
  delivery_failed : (delivery_id : ℕ) → MediaTraceKind
  queue_drops : (dropped total : ℕ) → MediaTraceKind

unfoldable pub category : MediaTraceKind → MediaTraceCategory
category (bridge_client_attached _) = bridge
category bridge_client_detached = bridge
category (projection_submitted _ _ _) = projection
category (projection_applied _ _ _) = projection
category (source_visibility _ _) = projection
category (playback_control _ _) = playback
category (playback_state _ _) = playback
category (outer_source_recreated _ _) = recovery
category (keyframe_request _ _ _) = recovery
category (keyframe_recovered _ _) = recovery
category (keyframe_delivery _ _ _ _) = recovery
category snapshot_retry = recovery
category source_lost = recovery
category outer_source_removed = delivery
category (delivery_failed _) = delivery
category (queue_drops _ _) = delivery

unfoldable pub is_recovery : MediaTraceKind → Bool
is_recovery (outer_source_recreated _ _) = true
is_recovery (keyframe_request _ _ _) = true
is_recovery (keyframe_recovered _ _) = true
is_recovery (keyframe_delivery _ _ _ _) = true
is_recovery snapshot_retry = true
is_recovery source_lost = true
is_recovery (delivery_failed _) = true
is_recovery _ = false

-- `==` on categories
unfoldable pub same_category : MediaTraceCategory → MediaTraceCategory → Bool
same_category bridge bridge = true
same_category projection projection = true
same_category playback playback = true
same_category recovery recovery = true
same_category delivery delivery = true
same_category _ _ = false
