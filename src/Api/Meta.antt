-- ===== src/Api/Meta.antt =====
-- Object metadata and the types that both custom resources share.
-- `metav1.Time` is a number of nanoseconds; a `*metav1.Time` is an Option. A Go map from strings is
-- a list of pairs without repeated keys, and the nil map is the empty list.
use kbrain.Prelude.{ℕ, Option, none, some, List, [], ◌∷◌, if◌then◌else◌}
use kbrain.Prelude.Text.{Text, text_eq}

abbrev pub Time : Type 0
Time = ℕ

abbrev pub Dict : Type 0
Dict = List (Text × Text)

-- `val, ok := m[k]`.
unfoldable pub lookup : Text → Dict → Option Text
lookup k [] = none
lookup k ((j, v) ∷ m) = if text_eq j k then some v else lookup k m

-- `m[k] = v`.
unfoldable pub insert : Text → Text → Dict → Dict
insert k v [] = (k, v) ∷ []
insert k v ((j, w) ∷ m) = if text_eq j k then (k, v) ∷ m else (j, w) ∷ insert k v m

-- `m[k]`, which is the empty string where the key is missing.
unfoldable pub index : Text → Dict → Text
unfolding lookup
index k m = elim (lookup k m) [ none ↦ [] | some v ↦ v ]

pub record ObjectMeta : Type 0 where
  pub name : Text
  pub namespace : Text
  pub labels : Dict
  pub annotations : Dict
  pub finalizers : List Text
  pub creation_timestamp : Time
  pub deletion_timestamp : Option Time
  -- the names of the owning tasks
  pub owner_references : List Text

-- `metav1.Condition`, without its generation and time.
pub record Condition : Type 0 where
  pub condition_type : Text
  pub status : Text
  pub reason : Text
  pub message : Text

pub record SecretKeyRef : Type 0 where
  pub name : Text
  pub key : Text

pub record GitSpec : Type 0 where
  pub repo_url : Text
  pub base_branch : Text
  pub target_branch : Text
  pub work_branch : Text
  pub platform : Text
