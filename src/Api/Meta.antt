-- ===== src/Api/Meta.antt =====
-- `metav1.ObjectMeta`, with the fields that the controllers read or write.
use cluster_api_provider_bmc.Base.{ℕ, String, Bool, true, ◌==◌, nat_eq, Option, none, some, List}
use cluster_api_provider_bmc.Go.Maps.{GoMap}

pub record ObjectMeta : Type 0 where
  pub namespace : String
  pub name : String
  pub annotations : GoMap
  pub finalizers : List String
  pub deletion_timestamp : Option ℕ  -- `*metav1.Time`; 0 is the zero time

-- `t.IsZero()` on a `*metav1.Time`, which allows a nil receiver.
unfoldable pub is_zero : Option ℕ → Bool
is_zero none = true
is_zero (some t) = t == 0
