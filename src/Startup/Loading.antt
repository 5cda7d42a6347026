-- ===== src/Startup/Loading.antt =====
-- `GetConfig` of internal/config/config.go: which setting comes from where.
use ceph_s3_operator.Prelude.{◌≡◌, ◌∙◌, inl, inr, refl, ℕ, Option, none, some, arith, ap}
use ceph_s3_operator.Prelude.Text.{Text}
use ceph_s3_operator.Go.{ok, Result-cases}
use ceph_s3_operator.ClaimController.State.{Config, default_config}
use ceph_s3_operator.Startup.{Koanf, empty_config, get_config}

-- The keys of the settings.
pub data Key : Type 0 where
  s3_user_class cluster_name timeout endpoint access_key secret_key : Key

pub data Value : Type 0 where
  string : Text → Value
  int : ℕ → Value

abbrev pub value_of : Config → Key → Value
value_of cfg s3_user_class = string cfg.s3_user_class
value_of cfg cluster_name = string cfg.cluster_name
value_of cfg timeout = int cfg.validation_webhook_timeout_seconds
value_of cfg endpoint = string cfg.rgw.endpoint
value_of cfg access_key = string cfg.rgw.access_key
value_of cfg secret_key = string cfg.rgw.secret_key

abbrev pub or_else : Option Value → Option Value → Option Value
or_else none other = other
or_else (some v) other = some v

-- What koanf documents: a struct sets every key, a file the keys that it has, and Unmarshal fills
-- the fields whose keys are set. A setting is the value as the field of its key takes it.
pub record KoanfLaws {K : Type 0} (koanf : Koanf K) : Type 0 where
  pub setting : K → Key → Option Value
  pub in_file : Text → Key → Option Value
  pub struct_sets :
      (cfg : Config) (k k' : K) (key : Key)
      → koanf.load_struct cfg k ≡ ok k'
      → setting k' key ≡ some (value_of cfg key)
  pub file_sets :
      (path : Text) (k k' : K) (key : Key)
      → koanf.load_file path k ≡ ok k'
      → setting k' key ≡ or_else (in_file path key) (setting k key)
  pub fills :
      (k : K) (cfg cfg' : Config) (key : Key) (v : Value)
      → koanf.unmarshal k cfg ≡ ok cfg'
      → setting k key ≡ some v
      → value_of cfg' key ≡ v

module _ {K : Type 0} (koanf : Koanf K) (laws : KoanfLaws koanf) where
  abbrev value_or : Value → Option Value → Value
  value_or v none = v
  value_or v (some v') = v'

  loaded : (o : Option Value) (v : Value) → or_else o (some v) ≡ some (value_or v o)
  loaded none v = refl
  loaded (some v') v = refl

  -- Under koanf's laws, a configuration that is read has every setting of the file, and for each
  -- that the file lacks the default.
  pub get_config-value_of :
      (path : Text) (cfg : Config) (key : Key)
      → get_config koanf path ≡ ok cfg
      → value_of cfg key ≡ value_or (value_of default_config key) (laws.in_file path key)
  unfolding get_config
  get_config-value_of path cfg key h =
      elim (Result-cases (koanf.load_struct default_config koanf.new)) [
        | inr bad ↦ ground arith
        | inl (k, e) ↦ elim (Result-cases (koanf.load_file path k)) [
          | inr bad ↦ ground arith
          | inl (k', e') ↦
              let first = laws.struct_sets default_config koanf.new k key e in
              let second = laws.file_sets path k k' key e' in
              let read : koanf.unmarshal k' empty_config ≡ ok cfg = ground arith in
              laws.fills k' empty_config cfg key _ read
                (second ∙ (ap (or_else (laws.in_file path key)) first ∙ loaded _ _))
        ]
      ]
