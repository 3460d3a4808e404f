-- ===== src/Protocol/Json.antt =====
-- What the program uses of Go's `encoding/json` and `bytes`: a decoder for each target type.
use a2ui_persistent_daemon.Base.{Bool, Option, List, String, ℤ}
use a2ui_persistent_daemon.Maps.{Map}

-- An element of an `items` property, as `runtime/bindings.go` decodes it.
pub record ActionItem : Type 0 where
  pub key : String
  pub label : String
  pub action : String
  pub args : String

-- `json.Unmarshal` into a fresh target: the value that it leaves there, and whether it returned no
-- error. A nil map is `none`; a nil slice is `[]`.
pub record Json : Type 0 where
  pub object : String → Option (Map String) × Bool
  pub objects : String → List (Option (Map String)) × Bool
  pub raws : String → List String × Bool
  pub string : String → String × Bool
  pub strings : String → List String × Bool
  pub matrix : String → List (List String) × Bool
  pub integer : String → ℤ × Bool
  pub boolean : String → Bool × Bool
  pub action_items : String → List ActionItem × Bool
  -- a `float64` was decoded, and it is neither below 0 nor above 1
  pub unit_float : String → Bool
  -- `bytes.TrimSpace`
  pub trim_space : String → String
