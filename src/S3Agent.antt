-- ===== src/S3Agent.antt =====
-- internal/s3_agent/s3_agent.go: the calls of S3 with a user's keys, and the bucket policy.
pub mod Policies
use ceph_s3_operator.Prelude.{
  ℕ, Bool, true, false, ◌||◌, Option, none, some, List, [], ◌∷◌, ◌++◌, if◌then◌else◌,
}
use ceph_s3_operator.Prelude.Text.{Text, text, ◌==◌}
use ceph_s3_operator.Prelude.Assoc.{Assoc, lookup, insert}
use ceph_s3_operator.Go.{Error, Result, ok, err, panic, message, wrap, aws_code, ◌>>=◌}
use ceph_s3_operator.Consts.{bucket_access_read, bucket_access_write}
use ceph_s3_operator.Env.{Env, AwsConfig, Statement, Policy}

pub record S3Agent : Type 0 where
  pub client : AwsConfig

unfoldable pub generate_bucket_access_action : Assoc (List Text)
generate_bucket_access_action =
    let read_actions : List Text = text "s3:ListBucket" ∷ text "s3:GetObject" ∷ [] in
    let write_actions : List Text = text "s3:DeleteObject" ∷ text "s3:PutObject" ∷ [] in
    (bucket_access_read, read_actions) ∷ (bucket_access_write, read_actions ++ write_actions) ∷ []

-- fmt.Sprintf("arn:aws:iam::%s:user/%s:%s", tenant, owner, subuser)
unfoldable pub aws_iam : Text → Text → Text → Text
aws_iam tenant owner subuser =
    text "arn:aws:iam::" ++ (tenant ++ (text ":user/" ++ (owner ++ b':' ∷ subuser)))

-- fmt.Sprintf("arn:aws:s3::%s:%s", tenant, bucket)
unfoldable pub bucket_arn : Text → Text → Text
bucket_arn tenant bucket = text "arn:aws:s3::" ++ (tenant ++ b':' ∷ bucket)

abbrev pub slice_or_nil : Option (List Text) → List Text
slice_or_nil none = []
slice_or_nil (some xs) = xs

-- The first loop: the names by their access, in the order of the visited entries.
unfoldable pub group_by_access : Text → Text → Assoc Text → Assoc (List Text) → Assoc (List Text)
group_by_access tenant owner [] groups = groups
group_by_access tenant owner ((subuser, access) ∷ entries) groups =
    group_by_access tenant owner entries (
      insert access (slice_or_nil (lookup access groups) ++ aws_iam tenant owner subuser ∷ [])
        groups)

-- The statement for an access: its principals and its actions, on the bucket and its objects.
abbrev pub statement_for : Text → Text → List Text → List Text → Statement
statement_for tenant bucket principals actions = record {
  sid = text "BucketAllow";
  effect = text "Allow";
  principal_aws = principals;
  action = actions;
  resource = bucket_arn tenant bucket ∷ (bucket_arn tenant bucket ++ text "/*") ∷ [];
}

-- The second loop: a statement for each access, or an error for an access that is not known.
unfoldable pub statements : Text → Text → Assoc (List Text) → Result (List Statement)
statements tenant bucket [] = ok []
statements tenant bucket ((access, principals) ∷ groups) =
    elim (lookup access generate_bucket_access_action) [
      | none ↦ err (message (text "the access " ++ (access ++ text " doesn't exists")))
      | some actions ↦ do
        rest ← statements tenant bucket groups
        ok (statement_for tenant bucket principals actions ∷ rest)
    ]

module _ {Q W : Type 0} (env : Env Q W) where
  open env use {
    new_session, create_bucket, delete_bucket, put_bucket_policy, marshal, range, range_slices,
    bucket_already_exists, bucket_already_owned_by_you,
  }

  unfoldable pub new_s3_agent : Text → Text → Text → Bool → Result S3Agent
  new_s3_agent access_key secret_key endpoint debug = do
    let config : AwsConfig = record {
      region = text "us-east-1";
      access_key = access_key;
      secret_key = secret_key;
      endpoint = endpoint;
      force_path_style = true;
      max_retries = 5;
      disable_ssl = true;
      timeout_seconds = 15;
      debug = debug;
    }
    _ ← new_session config
    ok (record { client = config })

  abbrev is_code : Text → Option Text → Bool
  is_code code none = false
  is_code code (some c) = c == code

  -- A bucket that is there already is no error.
  unfoldable pub create_error : Text → Error → Result (Unit {0})
  create_error name e =
      if is_code bucket_already_exists (aws_code e)
        || is_code bucket_already_owned_by_you (aws_code e)
      then ok tt
      else err (wrap (text "failed to create bucket " ++ (b'"' ∷ name ++ text "\". ")) e [])

  abbrev settle : Text → Result (Unit {0}) → Result (Unit {0})
  settle name (ok _) = ok tt
  settle name (err e) = create_error name e
  settle name panic = panic

  unfoldable pub agent_create_bucket : S3Agent → Text → W → Result (Unit {0}) × W
  agent_create_bucket s name w =
      let (result, w') = create_bucket s.client name w in (settle name result, w')

  unfoldable pub agent_delete_bucket : S3Agent → Text → W → Result (Unit {0}) × W
  agent_delete_bucket s name w = delete_bucket s.client name w

  -- The policy as a value.
  unfoldable pub bucket_policy : Assoc Text → Text → Text → Text → Result Policy
  bucket_policy subuser_access_map tenant owner bucket = do
    statement ←
        statements tenant bucket
          (range_slices (group_by_access tenant owner (range subuser_access_map) []))
    ok (record { version = text "2012-10-17"; id = text "S3Policy"; statement = statement })

  abbrev put_result : Text → Result (Unit {0}) × W → Result Text × W
  put_result policy (ok _, w) = (ok policy, w)
  put_result policy (err e, w) = (err e, w)
  put_result policy (panic, w) = (panic, w)

  abbrev put_policy : S3Agent → Text → Result Text → W → Result Text × W
  put_policy s bucket (ok policy) w = put_result policy (put_bucket_policy s.client bucket policy w)
  put_policy s bucket (err e) w = (err e, w)
  put_policy s bucket panic w = (panic, w)

  -- On an error the text that goes with it is empty.
  unfoldable pub set_bucket_policy : S3Agent → Assoc Text → Text → Text → Text → W → Result Text × W
  set_bucket_policy s subuser_access_map tenant owner bucket w =
      put_policy s bucket (bucket_policy subuser_access_map tenant owner bucket >>= marshal) w
