-- ===== src/Alerts/Evaluation.antt =====
-- The rule evaluations `_eval_…` of backend/app/core/alerts.py. An instant is in microseconds; where the
-- source subtracts a window from `now`, ℕ's subtraction stops at 0, which no instant lies below, so that
-- the comparisons come out the same. Floats are bit patterns, and the two operations on them,
-- `(part / whole) * 100` and `<`, are parameters.
use cyclope_central.Base.{
  ℕ, ◌-◌, ◌*◌, String, Bool, true, false, not, ◌&&◌, ◌||◌, Option, none, some, List, [], ◌∷◌, ltb,
  ◌==◌, str_eq, or_else, length, if◌then◌else◌,
}
use cyclope_central.Models.Device.{Device, DiskInventory, DeviceInventory, UpdateStatus}
use cyclope_central.Models.Alert.{Float, AlertRule, Message, Metadata, plain, empty, reported}
use cyclope_central.Alerts.Rules.{AlertSettings}

pub record RuleResult : Type 0 where
  pub active : Bool
  pub title : String
  pub message : Message
  pub metadata : Metadata

abbrev pub minutes : ℕ → ℕ
minutes n = n * 60000000

abbrev pub hours : ℕ → ℕ
hours n = n * 3600000000

abbrev pub days : ℕ → ℕ
days n = n * 86400000000

-- `t is None or t < bound`
unfoldable pub missing_or_before : Option ℕ → ℕ → Bool
missing_or_before none bound = true
missing_or_before (some t) bound = ltb t bound

-- `t is not None and t < bound`
unfoldable pub present_and_before : Option ℕ → ℕ → Bool
present_and_before none bound = false
present_and_before (some t) bound = ltb t bound

-- truth of a text that may be `None`
unfoldable pub has_text : Option String → Bool
has_text none = false
has_text (some s) = not (str_eq s "")

unfoldable pub opt_text_eq : Option String → String → Bool
opt_text_eq none t = false
opt_text_eq (some s) t = str_eq s t

-- `value is False`, `value is True`
unfoldable pub is_false : Option Bool → Bool
is_false none = false
is_false (some b) = not b

unfoldable pub is_true : Option Bool → Bool
is_true none = false
is_true (some b) = b

-- The numbers that the check-in handler puts into the payload it evaluates: `memory_total_bytes` and
-- `memory_used_bytes`, each `none` where the dict has no such key or holds `None`.
pub record MemoryReport : Type 0 where
  pub memory_total_bytes : Option ℕ
  pub memory_used_bytes : Option ℕ

module _ (settings : AlertSettings) where
  unfoldable pub eval_offline : Device → AlertRule → ℕ → RuleResult
  unfolding missing_or_before
  eval_offline device rule now =
      let window = or_else rule.parameters.offline_minutes settings.device_offline_minutes in
      record {
        active = missing_or_before device.last_seen_at (now - minutes window);
        title = "Device offline";
        message = Message.offline device.hostname window;
        metadata = Metadata.offline window device.last_seen_at;
      }

  unfoldable pub eval_updates_stale : Option UpdateStatus → AlertRule → ℕ → RuleResult
  unfolding present_and_before opt_text_eq
  eval_updates_stale none rule now = record {
    active = false;
    title = "Windows updates stale";
    message = plain "No update status reported.";
    metadata = empty;
  }
  eval_updates_stale (some updates) rule now =
      let window = or_else rule.parameters.stale_days settings.windows_update_stale_days in
      record {
        active =
            (opt_text_eq updates.update_status "stale"
              || opt_text_eq updates.update_status "updates_stale")
            || present_and_before updates.last_update_check_at (now - days window);
        title = "Windows updates stale";
        message = Message.updates_stale window;
        metadata = Metadata.updates_stale window updates.update_status;
      }

  unfoldable pub eval_agent_version : Device → AlertRule → RuleResult
  unfolding has_text opt_text_eq
  eval_agent_version device rule =
      let current = or_else rule.parameters.current_version settings.current_agent_version in
      record {
        active = has_text device.agent_version && not (opt_text_eq device.agent_version current);
        title = "Agent version outdated";
        message = Message.version_differs device.agent_version current;
        metadata = Metadata.version_differs current device.agent_version;
      }

  unfoldable pub refreshed_at : Option DeviceInventory → Option ℕ
  refreshed_at none = none
  refreshed_at (some inventory) = some inventory.inventory_refreshed_at

  unfoldable pub eval_inventory_stale : Option DeviceInventory → AlertRule → ℕ → RuleResult
  unfolding missing_or_before refreshed_at
  eval_inventory_stale inventory rule now =
      let window = or_else rule.parameters.stale_hours settings.inventory_stale_hours in
      record {
        active = missing_or_before (refreshed_at inventory) (now - hours window);
        title = "Inventory not refreshed recently";
        message = Message.inventory_stale window;
        metadata = Metadata.inventory_stale window (refreshed_at inventory);
      }

  module _ (percent : ℕ → ℕ → Float) (round_2 : Float → Float)
      (float_lt : Float → Float → Bool) where
    -- one round of the loop of `_eval_low_disk`
    unfoldable pub low_disk :
        Float → String → Option ℕ → Option ℕ → List (String × Float) → List (String × Float)
    low_disk threshold name none free later = later
    low_disk threshold name (some size) none later = later
    low_disk threshold name (some size) (some free) later =
        if size == 0
        then later
        else if float_lt (percent free size) threshold
        then (name, round_2 (percent free size)) ∷ later
        else later

    -- the disks that are too full, with their rounded percentages
    unfoldable pub low_disks : Float → List DiskInventory → List (String × Float)
    unfolding low_disk
    low_disks threshold [] = []
    low_disks threshold (disk ∷ rest) =
        low_disk threshold disk.name disk.size_bytes disk.free_bytes (low_disks threshold rest)

    unfoldable pub eval_low_disk : List DiskInventory → AlertRule → RuleResult
    unfolding low_disks
    eval_low_disk disks rule =
        let threshold = or_else rule.parameters.free_percent settings.low_disk_free_percent in
        let low = low_disks threshold disks in
        record {
          active = not (length low == 0);
          title = "Low disk free space";
          message = Message.low_disks (length low) threshold;
          metadata = Metadata.low_disks threshold low;
        }

    -- the used share in percent, where both numbers are there and the total is not 0
    unfoldable pub share : Option ℕ → Option ℕ → Option Float
    share none used = none
    share (some total) none = none
    share (some total) (some used) = if total == 0 then none else some (percent used total)

    unfoldable pub used_percent : MemoryReport → Option Float
    unfolding share
    used_percent report = share report.memory_total_bytes report.memory_used_bytes

    unfoldable pub exceeds : Option Float → Float → Bool
    exceeds none threshold = false
    exceeds (some share) threshold = float_lt threshold share

    -- `percent` is rounded to two places, and its message needs it not to be zero (`is_zero`)
    unfoldable pub eval_high_memory : (Float → Bool) → MemoryReport → AlertRule → RuleResult
    unfolding used_percent exceeds
    eval_high_memory is_zero report rule =
        let threshold = or_else rule.parameters.used_percent settings.high_memory_percent in
        let share = used_percent report in
        record {
          active = exceeds share threshold;
          title = "High memory usage";
          message = elim share [
            | none ↦ plain "Memory usage high."
            | some f ↦
                if is_zero (round_2 f)
                then plain "Memory usage high."
                else Message.memory (round_2 f) threshold
          ];
          metadata =
              Metadata.memory (elim share [ none ↦ none | some f ↦ some (round_2 f) ]) threshold;
        }

unfoldable pub eval_bool_false : Option Bool → String → String → RuleResult
unfolding is_false
eval_bool_false value title message = record {
  active = is_false value;
  title = title;
  message = plain message;
  metadata = reported value;
}

unfoldable pub eval_bool_true : Option Bool → String → String → RuleResult
unfolding is_true
eval_bool_true value title message = record {
  active = is_true value;
  title = title;
  message = plain message;
  metadata = reported value;
}
