-- ===== src/Storage.antt =====
-- The browser's `localStorage`, as the files of frontend/lib use it: one text under one key.
-- A text is represented by what `JSON.parse` makes of it, so `JSON.parse(JSON.stringify(v))` is `v`.
use group_management_ui_back.Prelude.{Bool, Option, none, some}

pub data Stored (A : Type 0) : Type 0 where
  -- the empty text, which is falsy
  blank : Stored A
  -- a text at which `JSON.parse` throws
  garbled : Stored A
  encoding : A → Stored A

-- `JSON.parse`, with `none` for the exception
abbrev pub json_parse : {A : Type 0} → Stored A → Option A
json_parse blank = none
json_parse garbled = none
json_parse (encoding a) = some a

abbrev pub json_stringify : {A : Type 0} → A → Stored A
json_stringify a = encoding a

-- `window`: whether it is defined, and the item under the file's `STORAGE_KEY` (`null` is `none`).
pub record Browser (A : Type 0) : Type 0 where
  pub has_window : Bool
  pub item : Option (Stored A)

abbrev pub set_item : {A : Type 0} → A → Browser A → Browser A
set_item a b = record b { item = some (json_stringify a) }
