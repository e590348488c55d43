-- ===== src/Handler/Copy.antt =====
-- `_copyHeadersToRequest`.
pub mod Laws
use sope_appserver.Prelude.{Option, none, some, List, [], ◌∷◌, Bytes, codes, ℤ, pos, atoi}

-- The fields of `request_rec` that describe the response to the client.
pub record Outgoing (T : Type 0) : Type 0 where
  pub content_type : Option Bytes
  pub content_encoding : Option Bytes
  pub headers_out : T

-- `if (value) field = value;`.
abbrev pub or_keep : Option Bytes → Option Bytes → Option Bytes
or_keep none old = old
or_keep (some v) old = some v

abbrev pub length_of_text : Option Bytes → ℤ
length_of_text none = pos 0
length_of_text (some v) = atoi v

module _ {T : Type 0} (table_get : T → Bytes → Option Bytes) where
  -- What is left in `contentLength`: without a table it stays what it was, the length of the
  -- request's body.
  abbrev pub content_length : ℤ → Option T → ℤ
  content_length request_length none = request_length
  content_length request_length (some t) = length_of_text (table_get t (codes "content-length"))

  module _ (table_elts : T → List (Bytes × Bytes)) (table_set : T → Bytes → Bytes → T) where
    unfoldable pub copy_entries : List (Bytes × Bytes) → T → T
    copy_entries [] out = out
    copy_entries ((key, val) ∷ entries) out = copy_entries entries (table_set out key val)

    unfoldable pub copy_headers : Option T → Outgoing T → Outgoing T
    unfolding copy_entries
    copy_headers none out = out
    copy_headers (some t) out = record {
      content_type = or_keep (table_get t (codes "content-type")) out.content_type;
      content_encoding = or_keep (table_get t (codes "content-encoding")) out.content_encoding;
      headers_out = copy_entries (table_elts t) out.headers_out;
    }
