-- ===== src/Tests/Startup.antt =====
-- main.go with a configuration file that sets the class only.
use ceph_s3_operator.Prelude.{◌≡◌, refl, ap, sym, ◌∙◌, Option, none, some, some_injective, []}
use ceph_s3_operator.Prelude.Text.{Text, text}
use ceph_s3_operator.Go.{Result, ok, err, message, ok_injective}
use ceph_s3_operator.ClaimController.State.{Config, default_config}
use ceph_s3_operator.Startup.{
  Koanf, Call, complete_webhook, empty_config, default_flags, get_config, run_process,
  webhooks_enabled,
}
use ceph_s3_operator.Startup.Loading.{
  Key, s3_user_class, cluster_name, timeout, endpoint, access_key, secret_key, Value, string,
  value_of, or_else, KoanfLaws, get_config-value_of,
}
use ceph_s3_operator.Startup.Order.{Follows, wanted_calls, run_process-Follows}

abbrev gold : Text
gold = text "gold"

abbrev koanf : Koanf Config
koanf = record {
  new = empty_config;
  load_struct = λ cfg k. ok cfg;
  load_file = λ path k. ok (record k { s3_user_class = gold });
  unmarshal = λ k cfg. ok k;
}

abbrev in_file : Key → Option Value
in_file s3_user_class = some (string gold)
in_file _ = none

file_value :
    (k : Config) (key : Key)
    → some (value_of (record k { s3_user_class = gold }) key)
      ≡ or_else (in_file key) (some (value_of k key))
file_value k s3_user_class = refl
file_value k cluster_name = refl
file_value k timeout = refl
file_value k endpoint = refl
file_value k access_key = refl
file_value k secret_key = refl

abbrev koanf_laws : KoanfLaws koanf
koanf_laws = record {
  setting = λ k key. some (value_of k key);
  in_file = λ path key. in_file key;
  struct_sets = λ cfg k k' key h. ap (λ c. some (value_of c key)) (ok_injective (sym h));
  file_sets =
      λ path k k' key h. ap (λ c. some (value_of c key)) (ok_injective (sym h)) ∙ file_value k key;
  fills = λ k cfg cfg' key v h e.
      some_injective (ap (λ c. some (value_of c key)) (ok_injective (sym h)) ∙ e);
}

abbrev cfg : Config
cfg = record default_config { s3_user_class = gold }

read : get_config koanf default_flags.config ≡ ok cfg
unfolding get_config
read = refl

get_config-value_of_example : value_of cfg s3_user_class ≡ string gold
get_config-value_of_example =
    get_config-value_of koanf koanf_laws default_flags.config cfg s3_user_class read

-- An environment in which only the webhook of claims cannot be set up.
abbrev answer : Call → Result (Unit {0})
answer (complete_webhook _ _) = err (message (text "no certificate"))
answer _ = ok tt

run_process-Follows_example :
    Follows answer
      (wanted_calls (webhooks_enabled (λ name. [])) default_flags cfg)
      (run_process answer koanf (λ name. []) default_flags)
run_process-Follows_example = run_process-Follows answer koanf (λ name. []) default_flags cfg read
