-- ===== src/Http.antt =====
-- include/ntc/http.h: the request record that the parser fills and the wire carries.
pub mod Respond
pub mod Scan
pub mod Parse
pub mod Access
pub mod ScanLaws
pub mod Total
pub mod Guards
pub mod Accepted
pub mod RespondLaws
use naitron_c.Prelude.{ℕ, Bool, List, Bytes}

pub record Header : Type 0 where
  pub name : Bytes
  pub value : Bytes

-- `headers` and `params` hold the entries below `nheaders` and `nparams`, which are their lengths.
pub record Request : Type 0 where
  pub method : Bytes
  pub target : Bytes
  pub path : Bytes
  pub query : Bytes
  pub minor_version : ℕ
  pub headers : List Header
  pub params : List Header
  pub auth_sub : Bytes
  pub auth_scope : Bytes
  pub has_content_length : Bool
  pub content_length : ℕ
  pub body : Bytes

abbrev pub max_headers : ℕ
max_headers = 64

abbrev pub max_params : ℕ
max_params = 8
