-- ===== src/Schema.antt =====
-- Rows of the router's database (compute_space/src/compute_space/db/schema.sql), with the columns that
-- the modelled code reads. A table is a list of rows in the order in which a query meets them.
use cloud_in_a_bottle.Shared.{List, Option, String, Text, ℕ}

pub data AppStatus : Type 0 where
  building starting running stopped error removing : AppStatus

-- `created_at` is a text that sorts by time: it is a number of seconds here.
pub record App : Type 0 where
  pub app_id : String
  pub name : Text
  pub local_port : ℕ
  pub container_id : Option String
  pub status : AppStatus
  pub error_message : Option Text
  pub public_paths : List Text
  pub created_at : ℕ

pub record PortMapping : Type 0 where
  pub label : Text
  pub container_port : ℕ
  pub host_port : ℕ

-- A row of app_port_mappings.
pub record PortRow : Type 0 where
  pub app_id : String
  pub label : Text
  pub container_port : ℕ
  pub host_port : ℕ
