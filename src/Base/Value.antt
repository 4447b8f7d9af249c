-- ===== src/Base/Value.antt =====
-- serde_json::Value. The members of an object are those of a map: each key once.
use ovp_data_api.Base.Bytes.{Text}
use ovp_data_api.Base.Int.{ℤ}
use mathlib.Core.Bool.{Bool, false, ◌||◌}
use ovp_data_api.Base.Lists.{any}
use ovp_data_api.Base.Tests.{◌==◌}

mutual
  pub data Json : Type 0 where
    null : Json
    bool : Bool → Json
    num : ℤ → Json
    str : Text → Json
    arr : Items → Json
    obj : Members → Json

  pub data Items : Type 0 where
    nil : Items
    cons : Json → Items → Items

  pub data Members : Type 0 where
    end : Members
    member : Text → Json → Members → Members

abbrev pub has_nul : Text → Bool
has_nul s = any (λ b. b == 0) s

-- Whether a value holds the character U+0000, in a text or in a key.
unfoldable mutual
  pub holds_nul : Json → Bool
  holds_nul (str s) = has_nul s
  holds_nul (arr items) = items_hold_nul items
  holds_nul (obj members) = members_hold_nul members
  holds_nul _ = false

  pub items_hold_nul : Items → Bool
  items_hold_nul nil = false
  items_hold_nul (cons j items) = holds_nul j || items_hold_nul items

  pub members_hold_nul : Members → Bool
  members_hold_nul end = false
  members_hold_nul (member k j members) = has_nul k || (holds_nul j || members_hold_nul members)
