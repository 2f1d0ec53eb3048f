-- ===== src/Api/Backend/Cache.antt =====
-- `Credentials` of api/api.go, asked for a second time.
use auklet_client_c.Prelude.{
  ◌≡◌, ◌≢◌, refl, sym, ap, ◌∙◌, ◌<>◌, String, Result, ok, err, arith, Option-cases, inl, inr,
  eq_iff,
}
use mathlib.Core.Path.{subst}
use auklet_client_c.Fsutil.{FilePath, Fs, IsLawful, write_file, read-write_file}
use auklet_client_c.Json.{read_struct, read_text}
use auklet_client_c.Api.Credentials.{
  Credentials, no_credentials, read_credentials, credentials_json,
}
use auklet_client_c.Api.Http.{Services, Api, Response, unmarshal, or_encoding_error, check_answer}
use auklet_client_c.Api.Backend.{
  World, credentials_of, devices_request, with_password, creds_from_file, of_file, written,
  save_credentials, request_credentials, credentials,
}

-- What is written as JSON for credentials is read back.
abbrev pub IsRendered : Services → Credentials → Type 0
IsRendered V c = V.parse (V.render (credentials_json c)) ≡ ok (credentials_json c)

ok-ne_err : {A : Type 0} {a : A} {e : String} → ok a ≢ err e
ok-ne_err h = cc

ok-injective : {A : Type 0} {a b : A} → ok a ≡ ok b → a ≡ b
ok-injective h = cc

module _ (V : Services) (F : Fs String) where
  -- A file that decodes is all that is used: nothing is sent or written.
  pub credentials_cached :
      (a : Api) (w : World V F) (c : Credentials)
      → creds_from_file V F a.creds_path w.fs ≡ ok c
      → credentials V F a w ≡ (w, ok c)
  unfolding credentials
  credentials_cached a w c h = rw h refl

  of_file-render :
      (c : Credentials) → IsRendered V c → of_file V F (ok (V.render (credentials_json c))) ≡ ok c
  unfolding of_file read_credentials credentials_json read_struct read_text
  of_file-render c R = rw R refl

  -- What `save_credentials` returns with no error can be read from the file.
  saved-cached :
      IsLawful F
      → (path : FilePath) (w : World V F) (r : Result Credentials) (c : Credentials)
      → IsRendered V c
      → (save_credentials V F path w r).1 ≡ ok c
      → creds_from_file V F path (save_credentials V F path w r).0.fs ≡ ok c
  unfolding save_credentials creds_from_file
  saved-cached L path w (err e) c R h = cc
  saved-cached L path w (ok d) c R h =
      let q = write_file F w.fs path (V.render (credentials_json d)) in
      elim (Option-cases q.1) [
        | inl saved ↦
            let same : written V F d q.1 ≡ ok d = rw saved refl in
            ap (of_file V F) (
              read-write_file F L w.fs q.0 path (V.render (credentials_json d))
                (ap (λ e. (q.0, e)) saved))
            ∙ of_file-render d (subst (λ x. IsRendered V x) (sym (ok-injective (sym same ∙ h))) R)
            ∙ sym same
            ∙ h
        | inr failed ↦
            let bad : written V F d q.1 ≡ err ("could not write credentials: " <> failed.0) =
              rw failed.1 refl in
            absurd (ok-ne_err (sym h ∙ bad))
      ]

  credentials_asks :
      (a : Api) (w : World V F) (e : String)
      → creds_from_file V F a.creds_path w.fs ≡ err e
      → let r = request_credentials V a w.net in
        credentials V F a w ≡ save_credentials V F a.creds_path (record w { net = r.0 }) r.1
  unfolding credentials
  credentials_asks a w e missing = rw missing refl

  -- On a lawful filesystem: when no file decodes and the backend gives credentials that could be
  -- saved, and whose JSON reads back, the next call returns the same from the file, and changes
  -- neither the network nor the filesystem.
  pub credentials_again :
      IsLawful F
      → (a : Api) (w : World V F) (e : String) (c : Credentials) → IsRendered V c
      → creds_from_file V F a.creds_path w.fs ≡ err e
      → (credentials V F a w).1 ≡ ok c
      → credentials V F a (credentials V F a w).0 ≡ ((credentials V F a w).0, ok c)
  credentials_again L a w e c R missing got =
      let asks = credentials_asks a w e missing in
      let r = request_credentials V a w.net in
      credentials_cached a (credentials V F a w).0 c (
        ap (λ (q : World V F × Result Credentials). creds_from_file V F a.creds_path q.0.fs) asks
        ∙ saved-cached L a.creds_path (record w { net = r.0 }) r.1 c R
            (sym (ap (λ (q : World V F × Result Credentials). q.1) asks) ∙ got))

module _ (V : Services) where
  with_password-nonempty :
      (r : Result Credentials) (c : Credentials) → with_password V r ≡ ok c → c.password ≢ ""
  unfolding with_password
  with_password-nonempty (err e) c h = cc
  with_password-nonempty (ok d) c h = ground (arith, eq_iff d.password "")

  credentials_of-nonempty :
      (r : Result Response) (c : Credentials) → credentials_of V r ≡ ok c → c.password ≢ ""
  unfolding credentials_of
  credentials_of-nonempty (err e) c h = cc
  credentials_of-nonempty (ok r) c h =
      with_password-nonempty
        (or_encoding_error "decodeCredentials" r.body
          (unmarshal read_credentials no_credentials (V.parse r.body)))
        c h

  -- Credentials that the backend gives have a password: an empty one is an error.
  pub request_credentials-nonempty :
      (a : Api) (n : V.Net) (c : Credentials)
      → (request_credentials V a n).1 ≡ ok c
      → c.password ≢ ""
  unfolding request_credentials
  request_credentials-nonempty a n c h =
      credentials_of-nonempty
        (check_answer V "getting broker credentials" 201 (devices_request V a)
          (V.send n (devices_request V a)).1)
        c h
