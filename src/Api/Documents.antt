-- ===== src/Api/Documents.antt =====
-- What the server answers: the documents of src/handlers/ and src/error.rs that it serialises, and a
-- response. quick_xml's serialisation is not in the repository: a body holds the value it is given.
use ferro_s.Base.{ℕ, List, [], Option, Bool, Text}

pub record ObjectContent : Type 0 where
  pub key : Text
  pub last_modified : Text
  pub etag : Text
  pub size : ℕ
  pub storage_class : Text

-- `contents` and `common_prefixes` in the order in which they are written.
pub record ListBucketResult : Type 0 where
  pub xmlns : Text
  pub name : Text
  pub prefix : Text
  pub marker : Option Text
  pub next_marker : Option Text
  pub max_keys : ℕ
  pub delimiter : Option Text
  pub is_truncated : Bool
  pub contents : List ObjectContent
  pub common_prefixes : List Text
  pub key_count : Option ℕ
  pub continuation_token : Option Text
  pub next_continuation_token : Option Text

pub record Bucket : Type 0 where
  pub name : Text
  pub creation_date : Text

pub record ListAllMyBucketsResult : Type 0 where
  pub xmlns : Text
  pub owner_id : Text
  pub owner_display_name : Text
  pub buckets : List Bucket

pub record CopyObjectResult : Type 0 where
  pub last_modified : Text
  pub etag : Text

pub record AccessControlPolicy : Type 0 where
  pub owner_id : Text
  pub owner_display_name : Text
  pub grantee_xsi_type : Text
  pub grantee_id : Text
  pub grantee_display_name : Text
  pub permission : Text

pub record S3Error : Type 0 where
  pub code : Text
  pub message : Text
  pub resource : Option Text
  pub request_id : Text

-- `bytes_of start len` is a stream over the opened file; `whole_file` reads it to its end.
pub data Body : Type 0 where
  empty : Body
  plain : Text → Body
  error : S3Error → Body
  listing : ListBucketResult → Body
  buckets : ListAllMyBucketsResult → Body
  copied : CopyObjectResult → Body
  acl : AccessControlPolicy → Body
  whole_file : List ℕ → Body
  bytes_of : (start len : ℕ) → List ℕ → Body

pub record Response : Type 0 where
  pub status : ℕ
  pub headers : List (Text × Text)
  pub body : Body

-- A response with a status and nothing else: `StatusCode::into_response`.
abbrev pub status_only : ℕ → Response
status_only code = record { status = code; headers = []; body = empty }
