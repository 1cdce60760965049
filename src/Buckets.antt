-- ===== src/Buckets.antt =====
-- The bucket handlers of src/handlers/bucket.rs.
pub mod Configured
mod Tests
use ferro_s.Base.{List, [], ◌∷◌, some, Text, codes, if◌then◌else◌, is_some}
use ferro_s.State.{BucketConfig, AppState, map_get}
use ferro_s.Api.Documents.{Bucket, Response, buckets, status_only}
use ferro_s.Api.Errors.{no_such_bucket, to_response}

-- The loop of `list_buckets`.
unfoldable pub bucket_entries : List BucketConfig → List Bucket
bucket_entries [] = []
bucket_entries (b ∷ bs) =
    (record { name = b.name; creation_date = codes "2006-02-03T16:45:09.000Z" }) ∷ bucket_entries bs

module _ {C : Type 0} (state : AppState C) where
  unfoldable pub list_buckets : Response
  list_buckets = record {
    status = 200;
    headers = (codes "content-type", codes "application/xml") ∷ [];
    body = buckets (record {
      xmlns = codes "http://s3.amazonaws.com/doc/2006-03-01/";
      owner_id = codes "75aa57f09aa0c8caeab4f8c24e99d10f8e7faeebf76c078efc7c6caea54ba06a";
      owner_display_name = codes "Owner";
      buckets = bucket_entries state.config.buckets;
    });
  }

  unfoldable pub head_bucket : Text → Text → Response
  head_bucket request_id bucket =
      if is_some (map_get state.storage_map bucket)
      then status_only 200
      else to_response request_id no_such_bucket (some bucket)
