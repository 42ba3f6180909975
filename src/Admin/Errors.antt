-- ===== src/Admin/Errors.antt =====
-- Every check of a body that fails answers with an error status.
use rein.Base.{◌≡◌, refl, Bool, true, Option, none, some, Text, ltb, arith, inl, inr}
use rein.Base.Try.{Try, done, failed, ◌>>=◌, Try-cases}
use rein.Base.Float.{Float}
use rein.Rfc3339.{Rfc3339}
use rein.BaseUrl.{Net, UrlCode, validate}
use rein.Admin.{
  Response, CreateBody, KeyStore, refuse_as, generate_id, generate_token, internal_error,
}
use rein.Admin.Checks.{
  check_name, create_base_url, check_base_url, create_expires_at, check_create, parse_expires_at,
}
use rein.Admin.Handlers.{World, Library, key_to_create}

module _ {F : Type 0} where
  -- If the check fails, its status is 400 or more.
  abbrev pub errs : {A : Type 0} → Try (Response F) A → Bool
  errs (done a) = true
  errs (failed r) = ltb 399 r.status

  errs-bind :
      {A : Type 0} {B : Type 0} (m : Try (Response F) A) (f : A → Try (Response F) B)
      → errs m ≡ true
      → ((a : A) → errs (f a) ≡ true)
      → errs (m >>= f) ≡ true
  errs-bind (done a) f h k = k a
  errs-bind (failed r) f h k = h

  errs-refuse_as :
      {A : Type 0} (r : Response F) (o : Option A)
      → ltb 399 r.status ≡ true
      → errs (refuse_as r o) ≡ true
  errs-refuse_as r none h = h
  errs-refuse_as r (some a) h = refl

errs-check_name : (F : Type 0) (blank raw : Text) → errs (check_name {F = F} blank raw) ≡ true
unfolding check_name
errs-check_name F blank raw = ground arith

errs-create_base_url :
    (F : Type 0) {Ip : Type 0} (net : Net Ip) (message : UrlCode → Text) (upstream raw : Text)
    → errs (create_base_url {F = F} net message upstream raw) ≡ true
unfolding create_base_url check_base_url
errs-create_base_url F net message upstream raw = elim (Try-cases (validate net raw)) [
  | inl (c, good) ↦ rw good (ground arith)
  | inr (x, bad) ↦ rw bad (ground arith)
]

errs-create_expires_at :
    (F : Type 0) (clock : Rfc3339) (now : _) (raw : Text)
    → errs (create_expires_at {F = F} clock now raw) ≡ true
unfolding create_expires_at
errs-create_expires_at F clock now raw = elim (Try-cases (parse_expires_at clock raw now)) [
  | inl (c, good) ↦ rw good (ground arith)
  | inr (x, bad) ↦ rw bad (ground arith)
]

module _ {F : Type 0} where
  module _ ⦃fl : Float F⦄ where
    errs-check_create : (b : CreateBody F) → errs (check_create b) ≡ true
    unfolding check_create
    errs-check_create b = ground arith

    pub errs-key_to_create :
        {S : Type 0} {Ip : Type 0} (ks : KeyStore S F) (lib : Library Ip) (w : World)
        (body : Option (CreateBody F))
        → errs (key_to_create ks lib w body) ≡ true
    unfolding key_to_create
    errs-key_to_create ks lib w body =
        errs-bind (refuse_as _ body) _ (errs-refuse_as _ body refl) (λ b.
          errs-bind (check_name _ b.name) _ (errs-check_name F _ b.name) (λ name.
            errs-bind (check_create b) _ (errs-check_create b) (λ x.
              errs-bind (create_base_url lib.net lib.url_message b.upstream b.upstream_base_url) _
                (errs-create_base_url F lib.net lib.url_message b.upstream b.upstream_base_url)
                (λ base.
                  errs-bind (create_expires_at lib.clock w.now b.expires_at) _
                    (errs-create_expires_at F lib.clock w.now b.expires_at)
                    (λ e.
                      errs-bind (refuse_as internal_error (generate_id w.id_rand)) _
                        (errs-refuse_as internal_error (generate_id w.id_rand) refl)
                        (λ id.
                          errs-bind (refuse_as internal_error (generate_token w.token_rand)) _
                            (errs-refuse_as internal_error (generate_token w.token_rand) refl)
                            (λ t. refl)))))))
