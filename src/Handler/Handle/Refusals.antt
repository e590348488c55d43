-- ===== src/Handler/Handle/Refusals.antt =====
-- Which requests the handler leaves to other modules.
use sope_appserver.Handler.AppName.Suffixes.{contains}
use sope_appserver.Handler.AppName.{starts_with}
use sope_appserver.Handler.Converse.{Host, Call}
use sope_appserver.Handler.Guards.{same_text, starts_slash, is_ours, takes_uri}
use sope_appserver.Handler.Handle.{with_uri, handle}
use sope_appserver.Handler.Response.{Response, declined}
use sope_appserver.Prelude.{
  ℕ, ◌≡◌, ◌≢◌, ◌⊎◌, inl, inr, refl, Bool, true, false, none, some, [], ◌∷◌, ◌++◌, arith,
  if◌then◌else◌, Bytes, codes,
}

abbrev adaptor : Bytes
adaptor = codes "ngobjweb-adaptor"

abbrev resources : Bytes
resources = codes "WebServerResources"

-- Why a request is not one for the module: no handler or another one is set for it, it has no path
-- or one that does not start with a slash, or its path holds "WebServerResources".
pub data Foreign {T : Type 0} (call : Call T) : Type 0 where
  no_handler : call.handler ≡ none → Foreign call
  other_handler : (name : Bytes) → call.handler ≡ some name → name ≢ adaptor → Foreign call
  no_path : call.uri ≡ none → Foreign call
  relative : (path : Bytes) → call.uri ≡ some path → starts_slash path ≡ false → Foreign call
  resource : (xs ys : Bytes) → call.uri ≡ some (xs ++ (resources ++ ys)) → Foreign call

same_text_sound : (s t : Bytes) → same_text s t ≡ true → s ≡ t
unfolding same_text
same_text_sound [] [] h = refl
same_text_sound [] (d ∷ t) h = cc
same_text_sound (c ∷ s) [] h = cc
same_text_sound (c ∷ s) (d ∷ t) h = ground (arith, same_text_sound s t)

same_text-other : (s t : Bytes) → s ≢ t → same_text s t ≡ false
same_text-other s t h = ground (arith, same_text_sound s t)

starts_with-append : (p ys : Bytes) → starts_with (p ++ ys) p ≡ true
unfolding starts_with
starts_with-append [] ys = refl
starts_with-append (x ∷ p) ys = ground (arith, starts_with-append p ys)

contains-starts_with : (p zs : Bytes) → starts_with zs p ≡ true → contains p zs ≡ true
unfolding contains
contains-starts_with p [] h = h
contains-starts_with p (x ∷ xs) h = rw h refl

contains-append : (p xs ys : Bytes) → contains p (xs ++ (p ++ ys)) ≡ true
unfolding contains
contains-append p [] ys = contains-starts_with p (p ++ ys) (starts_with-append p ys)
contains-append p (x ∷ xs) ys = ground (arith, contains-append p xs ys)

module _ {T W : Type 0} (host : Host T W) (rounds : ℕ) (call : Call T) where
  left_out : Foreign call → (is_ours call.handler ≡ false) ⊎ (takes_uri call.uri ≡ false)
  unfolding is_ours takes_uri
  left_out (no_handler e) = inl (rw e refl)
  left_out (other_handler name e h) = inl (rw e (same_text-other name adaptor h))
  left_out (no_path e) = inr (rw e refl)
  left_out (relative path e h) = inr (rw (e, h) refl)
  left_out (resource xs ys e) = inr (rw e (ground (arith, contains-append resources xs ys)))

  refused :
      (b c : Bool) (x y : Response T W)
      → (b ≡ false) ⊎ (c ≡ false)
      → (if b then (if c then x else y) else y) ≡ y
  refused true c x y (inl e) = cc
  refused true c x y (inr e) = rw e refl
  refused false c x y h = refl

  -- A request that is not one for the module is declined, and nothing has been done for it.
  pub handle-Foreign : (w : W) → Foreign call → handle host rounds call w ≡ declined w
  unfolding handle
  handle-Foreign w f =
      refused (is_ours call.handler) (takes_uri call.uri) (with_uri host rounds call call.uri w)
        (declined w) (left_out f)
