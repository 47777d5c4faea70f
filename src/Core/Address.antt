-- ===== src/Core/Address.antt =====
-- crates/refract-core/src/address.rs: the fields of an upstream address and when it is inherited.
-- Resolve has the URL that it becomes.
pub mod Paths
pub mod Resolve
pub mod Checked
use refract.Base.{Bool, not, ◌&&◌, Option, String, is_none}

pub record UpstreamAddress : Type 0 where
  pub unofficial : Bool
  pub full_address : Bool
  pub base_url : Option String
  pub version_prefix : Option String
  pub path : Option String

unfoldable pub is_inherited : UpstreamAddress → Bool
is_inherited a =
    not a.unofficial
    && not a.full_address
    && is_none a.base_url
    && is_none a.version_prefix
    && is_none a.path
