-- ===== src/Records.antt =====
-- store.py: what the store hands out about one recorded state and about one version.
use ha_dashboard_history.Base.{ℕ, Option, Text, Bool}

pub record Change : Type 0 where
  pub revision : Text
  pub timestamp : ℕ
  pub message : Text
  pub description : Text
  pub previous : Option Text

pub record Version : Type 0 where
  pub name : Text
  pub revision : Text
  pub title : Text
  pub description : Text
  pub timestamp : ℕ
  pub annotated : Bool
