-- ===== src/GuestLoader/Load.antt =====
-- crates/guest-loader/src: which programs are accepted.
use zkboost.Transport.{Response, refuse_status}
use zkboost.Prelude.{
  Option-cases, Result-cases, is_empty, ◌∷◌, ◌>>=◌, Bool, if◌then◌else◌, ◌&&◌, leb, ltb, Option,
  some, true, false, arith, ap, ◌<◌, ◌≤◌, ◌⊎◌, inl, inr, Bool-cases, ◌≢◌, [], ◌≡◌, refl, ◌↔◌, Text,
  Result, ok, err, >>=-eq-ok, >>-eq-ok', subst, sym, ◌∙◌,
}
use mathlib.Core.Option.{some-injective}
use zkboost.Payload.{Bytes}
use zkboost.ProofType.Query.{trim}
use zkboost.GuestLoader.{
  Minisign, or_message, verify_program_and_signature, load_and_verify_with_url, Sources, is_url,
  Files, make_parent, main, fetch_artifact_bytes, fetch_artifact_string, resolve_public_key, load,
}

or_message-eq-ok :
    {A : Type 0} (msg : Text) (m : Result Text A) (a : A) → or_message msg m ≡ ok a → m ≡ ok a
or_message-eq-ok msg (ok b) a h = cc
or_message-eq-ok msg (err e) a h = absurd (cc)

ok-injective : {A : Type 0} {a b : A} → ◌≡◌ {A = Result Text A} (ok a) (ok b) → a ≡ b
ok-injective h = cc

-- A response that is no error of the client or the server.
abbrev pub IsAccepted : Response → Type 0
IsAccepted response = (response.status < 400) ⊎ (600 ≤ response.status)

refuse_status_iff :
    (response accepted : Response)
    → (refuse_status response ≡ ok accepted) ↔ ((response ≡ accepted) × IsAccepted response)
refuse_status_iff response accepted =
    elim (Bool-cases (leb 400 response.status && ltb response.status 600)) [
      | inl c ↦ (
        λ h. absurd (let h' = rw (refuse_status, c) at h in cc),
        λ (same, accepted). absurd (ground arith),
      )
      | inr c ↦ (
        λ h. (ok-injective (let h' = rw (refuse_status, c) at h in h'), ground arith),
        λ (same, accepted). rw (refuse_status, c) (ap ok same),
      )
    ]

module _ (sources : Sources) where
  -- The body of a URL's response that is no error.
  abbrev pub IsResponse : Text → Bytes → Type 0
  IsResponse url bytes =
      (response : Response) × (sources.send url ≡ ok response)
      × IsAccepted response
      × (response.body ≡ ok bytes)

  -- The bytes that a URL gives, or a file.
  abbrev pub IsFetched : Text → Bytes → Type 0
  IsFetched source bytes =
      ((is_url source ≡ true) × IsResponse source bytes)
      ⊎ ((is_url source ≡ false) × (sources.read source ≡ ok bytes))

  -- The text that a URL gives, or a file.
  abbrev pub IsFetchedText : Text → Text → Type 0
  IsFetchedText source t =
      ((is_url source ≡ true)
        × ((bytes : Bytes) × IsResponse source bytes × (sources.decode bytes ≡ t)))
      ⊎ ((is_url source ≡ false) × (sources.read_to_string source ≡ ok t))

  -- A key from a URL or an existing file, or the text itself.
  abbrev pub IsKey : Text → Text → Type 0
  IsKey source key =
      (((is_url source ≡ true) ⊎ (sources.exists source ≡ true)) × IsFetchedText source key)
      ⊎ ((is_url source ≡ false) × (sources.exists source ≡ false) × (source ≡ key))

  abbrev fetch_url : Text → Result Text Bytes
  fetch_url url = do sent ← sources.send url; response ← refuse_status sent; response.body

  fetch_url_iff : (url : Text) (bytes : Bytes) → (fetch_url url ≡ ok bytes) ↔ IsResponse url bytes
  fetch_url_iff url bytes = (
    λ h.
        let (sent, e, h₁) = >>=-eq-ok (sources.send url) _ h in
        let (response, f, h₂) = >>=-eq-ok (refuse_status sent) _ h₁ in
        let (same, accepted) = (refuse_status_iff sent response).0 f in
        (sent, e, accepted, ap (λ (r : Response). r.body) same ∙ h₂),
    λ (response, e, accepted, body).
        rw (fetch_url, e, (refuse_status_iff response response).1 (refl, accepted)) body,
  )

  fetch_bytes_iff :
      (source : Text) (bytes : Bytes)
      → (fetch_artifact_bytes sources source ≡ ok bytes) ↔ IsFetched source bytes
  unfolding fetch_artifact_bytes
  fetch_bytes_iff source bytes = elim (Bool-cases (is_url source)) [
    | inl u ↦ (
      λ h.
          inl
            (u, (fetch_url_iff source bytes).0 (let h' = rw (fetch_artifact_bytes, u) at h in h')),
      λ f. elim f [
        | inl (v, r) ↦ rw (fetch_artifact_bytes, u) ((fetch_url_iff source bytes).1 r)
        | inr (v, r) ↦ absurd (cc)
      ],
    )
    | inr u ↦ (
      λ h. inr (u, (let h' = rw (fetch_artifact_bytes, u) at h in h')),
      λ f. elim f [ inl (v, r) ↦ absurd (cc) | inr (v, r) ↦ rw (fetch_artifact_bytes, u) r ],
    )
  ]

  fetch_text_iff :
      (source : Text) (t : Text)
      → (fetch_artifact_string sources source ≡ ok t) ↔ IsFetchedText source t
  unfolding fetch_artifact_string
  fetch_text_iff source t = elim (Bool-cases (is_url source)) [
    | inl u ↦ (
      λ h.
          let h' = rw (fetch_artifact_string, u) at h in
          let (sent, e, h₁) = >>=-eq-ok (sources.send source) _ h' in
          let (response, f, h₂) = >>=-eq-ok (refuse_status sent) _ h₁ in
          let (bytes, body, h₃) = >>=-eq-ok response.body _ h₂ in
          let (same, accepted) = (refuse_status_iff sent response).0 f in
          inl (
            u,
            (
              bytes,
              (sent, e, accepted, ap (λ (r : Response). r.body) same ∙ body),
              ok-injective h₃,
            ),
          ),
      λ f. elim f [
        | inl (v, (bytes, (response, e, accepted, body), same)) ↦
            rw
              (
                fetch_artifact_string,
                u,
                e,
                (refuse_status_iff response response).1 (refl, accepted),
                body,
              )
              (ap ok same)
        | inr (v, r) ↦ absurd (cc)
      ],
    )
    | inr u ↦ (
      λ h. inr (u, (let h' = rw (fetch_artifact_string, u) at h in h')),
      λ f. elim f [ inl (v, r) ↦ absurd (cc) | inr (v, r) ↦ rw (fetch_artifact_string, u) r ],
    )
  ]

  resolve-is_url :
      (source : Text) (url exists : Bool)
      → is_url source ≡ url
      → sources.exists source ≡ exists
      → resolve_public_key sources source ≡ (
          if url
          then fetch_artifact_string sources source
          else if exists
          then fetch_artifact_string sources source
          else ok source)
  unfolding resolve_public_key
  resolve-is_url source url exists u w =
      ap
        (λ c.
          if c
          then fetch_artifact_string sources source
          else if sources.exists source
          then fetch_artifact_string sources source
          else ok source)
        u
      ∙ ap
          (λ c.
            if url
            then fetch_artifact_string sources source
            else if c
            then fetch_artifact_string sources source
            else ok source)
          w

  resolve_iff :
      (source : Text) (key : Text) → (resolve_public_key sources source ≡ ok key) ↔ IsKey source key
  resolve_iff source key = elim (Bool-cases (is_url source)) [
    | inl u ↦
        let found = resolve-is_url source true (sources.exists source) u refl in
        (
          λ h. inl (inl u, (fetch_text_iff source key).0 (sym found ∙ h)),
          λ f. elim f [
            | inl (v, r) ↦ found ∙ (fetch_text_iff source key).1 r
            | inr (v, missing, r) ↦ absurd (cc)
          ],
        )
    | inr u ↦ elim (Bool-cases (sources.exists source)) [
      | inl w ↦
          let found = resolve-is_url source false true u w in
          (
            λ h. inl (inr w, (fetch_text_iff source key).0 (sym found ∙ h)),
            λ f. elim f [
              | inl (v, r) ↦ found ∙ (fetch_text_iff source key).1 r
              | inr (v, missing, r) ↦ absurd (cc)
            ],
          )
      | inr w ↦
          let found = resolve-is_url source false false u w in
          (
            λ h. inr (u, w, ok-injective (sym found ∙ h)),
            λ f. elim f [
              | inl (v, r) ↦ absurd (elim v [ inl a ↦ cc | inr a ↦ cc ])
              | inr (v, missing, r) ↦ found ∙ ap ok r
            ],
          )
    ]
  ]

-- The directory of the output is there, once it is made if its path has a name.
abbrev pub HasParent : Files → Text → Type 0
HasParent files output =
    (parent : Text)
    → files.parent output ≡ some parent
    → parent ≢ []
    → files.create_dir_all parent ≡ ok tt

make_dir_iff :
    (files : Files) (parent : Text)
    → ((if is_empty parent then ok tt else files.create_dir_all parent) ≡ ok tt)
      ↔ (parent ≢ [] → files.create_dir_all parent ≡ ok tt)
make_dir_iff files [] = (λ h n. absurd (n refl), λ h. refl)
make_dir_iff files (c ∷ parent) = (λ h n. h, λ h. h (λ e. cc))

make_parent_iff :
    (files : Files) (output : Text) → (make_parent files output ≡ ok tt) ↔ HasParent files output
unfolding make_parent
make_parent_iff files output = elim (Option-cases (files.parent output)) [
  | inl e ↦ (λ h parent f n. absurd (cc), λ h. rw (make_parent, e) refl)
  | inr (parent, e) ↦ (
    λ h other f n.
        let same : parent ≡ other = some-injective parent other (sym e ∙ f) in
        subst (λ p. files.create_dir_all p ≡ ok tt) same
          ((make_dir_iff files parent).0 (let h' = rw (make_parent, e) at h in h')
            (λ is_nil. n (sym same ∙ is_nil))),
    λ h. rw (make_parent, e) ((make_dir_iff files parent).1 (h parent e)),
  )
]

module _ (minisign : Minisign) where
  -- A signature that minisign verifies for a program under a key, both in their text forms.
  pub record IsSigned (program : Bytes) (signature key : Text) : Type 0 where
    pub public_key : minisign.PublicKey
    pub key_text : minisign.key_from_base64 key ≡ ok public_key
    pub signature_box : minisign.SignatureBox
    pub signature_text : minisign.signature_from_string signature ≡ ok signature_box
    pub verified : minisign.verify public_key signature_box program ≡ ok tt

  signed :
      (program : Bytes) (signature key : Text)
      → verify_program_and_signature minisign program signature key ≡ ok tt
      → IsSigned program signature key
  unfolding verify_program_and_signature
  signed program signature key h =
      let (public_key, k, h') = >>=-eq-ok (or_message _ (minisign.key_from_base64 key)) _ h in
      let (signature_box, s, h'') =
        >>=-eq-ok (or_message _ (minisign.signature_from_string signature)) _ h' in
      record {
        public_key = public_key;
        key_text = or_message-eq-ok _ (minisign.key_from_base64 key) public_key k;
        signature_box = signature_box;
        signature_text =
            or_message-eq-ok _ (minisign.signature_from_string signature) signature_box s;
        verified = or_message-eq-ok _ (minisign.verify public_key signature_box program) tt h'';
      }

  signed_ok :
      (program : Bytes) (signature key : Text)
      → IsSigned program signature key
      → verify_program_and_signature minisign program signature key ≡ ok tt
  unfolding verify_program_and_signature
  signed_ok program signature key a =
      rw (verify_program_and_signature, a.key_text, a.signature_text, a.verified) refl

  -- A program is loaded from its URL exactly if it is what the URL gives and the other URL gives a
  -- signature for it under the publisher's key. No other program is returned.
  pub load_and_verify_with_url-eq-ok_iff :
      (get_bytes : Text → Result Text Bytes) (get_string : Text → Result Text Text)
      (program_url signature_url key : Text) (program : Bytes)
      → (load_and_verify_with_url minisign get_bytes get_string program_url signature_url key
          ≡ ok program)
        ↔ ((signature : Text) × (get_bytes program_url ≡ ok program)
            × (get_string signature_url ≡ ok signature)
            × IsSigned program signature key)
  unfolding load_and_verify_with_url
  load_and_verify_with_url-eq-ok_iff get_bytes get_string program_url signature_url key program = (
    λ h.
        let (bytes, b, h') = >>=-eq-ok (get_bytes program_url) _ h in
        let (signature, s, h'') = >>=-eq-ok (get_string signature_url) _ h' in
        let (v, same) =
          >>-eq-ok' (verify_program_and_signature minisign bytes signature key) (ok bytes) h'' in
        let e : bytes ≡ program = cc in
        (
          signature,
          b ∙ same,
          s,
          subst (λ p. IsSigned p signature key) e (signed bytes signature key v),
        ),
    λ (signature, b, s, a).
        rw (load_and_verify_with_url, b, s, signed_ok program signature key a) refl,
  )

  load-eq-ok_iff :
      (sources : Sources) (program_source signature_source key_source : Text) (program : Bytes)
      → (load minisign sources program_source signature_source key_source ≡ ok program) ↔ (
          (signature : Text) × (key : Text) × (fetch_artifact_bytes sources program_source
            ≡ ok program)
          × (fetch_artifact_string sources signature_source ≡ ok signature)
          × (resolve_public_key sources key_source ≡ ok key)
          × IsSigned program (trim signature) (trim key))
  unfolding load
  load-eq-ok_iff sources program_source signature_source key_source program = (
    λ h.
        let (bytes, b, h₁) = >>=-eq-ok (fetch_artifact_bytes sources program_source) _ h in
        let (signature, s, h₂) = >>=-eq-ok (fetch_artifact_string sources signature_source) _ h₁ in
        let (key, k, h₃) = >>=-eq-ok (resolve_public_key sources key_source) _ h₂ in
        let (v, same) =
          >>-eq-ok' (verify_program_and_signature minisign bytes (trim signature) (trim key))
            (ok bytes) h₃ in
        let e : bytes ≡ program = cc in
        (
          signature,
          key,
          b ∙ same,
          s,
          k,
          subst (λ p. IsSigned p (trim signature) (trim key)) e
              (signed bytes (trim signature) (trim key) v),
        ),
    λ (signature, key, b, s, k, a).
        rw (load, b, s, k, signed_ok program (trim signature) (trim key) a) refl,
  )

  main-loaded :
      (sources : Sources) (files : Files) (program_source signature_source key_source output : Text)
      (program : Bytes)
      → main minisign sources files program_source signature_source key_source output
        ≡ (files.write output program, some (output, program))
      → (load minisign sources program_source signature_source key_source ≡ ok program)
        × (make_parent files output ≡ ok tt)
  unfolding main
  main-loaded sources files program_source signature_source key_source output program h =
      elim (Result-cases (load minisign sources program_source signature_source key_source)) [
        | inl (bytes, e) ↦ elim (Result-cases (make_parent files output)) [
          | inl (u, f) ↦
              let h' = rw (main, e, f) at h in
              let same : bytes ≡ program =
                ap (λ (w : Text × Bytes). w.1)
                  (some-injective _ _
                    (ap (λ (r : Result Text (Unit {0}) × Option (Text × Bytes)). r.1) h')) in
              (e ∙ ap ok same, f)
          | inr (error, f) ↦
              let h' = rw (main, e, f) at h in
              absurd
                (let n = ap (λ (r : Result Text (Unit {0}) × Option (Text × Bytes)). r.1) h' in cc)
        ]
        | inr (error, e) ↦
            let h' = rw (main, e) at h in
            absurd
              (let n = ap (λ (r : Result Text (Unit {0}) × Option (Text × Bytes)). r.1) h' in cc)
      ]

  -- The tool makes one write, of a program to its output, and returns what the write returns,
  -- exactly if the program's source gives that program, the sources of the signature and of the key
  -- give, without the white space round them, a signature for it, and the directory of the output
  -- can be made. A URL gives the body of a response whose status is no error.
  pub main_iff :
      (sources : Sources) (files : Files) (program_source signature_source key_source output : Text)
      (program : Bytes)
      → (main minisign sources files program_source signature_source key_source output
          ≡ (files.write output program, some (output, program)))
        ↔ ((signature : Text) × (key : Text) × IsFetched sources program_source program
            × IsFetchedText sources signature_source signature
            × IsKey sources key_source key
            × IsSigned program (trim signature) (trim key)
            × HasParent files output)
  unfolding main
  main_iff sources files program_source signature_source key_source output program =
      let loaded = load-eq-ok_iff sources program_source signature_source key_source program in
      (
        λ h.
            let (l, d) =
              main-loaded sources files program_source signature_source key_source output program
                h in
            let (signature, key, b, s, k, a) = loaded.0 l in
            (
              signature,
              key,
              (fetch_bytes_iff sources program_source program).0 b,
              (fetch_text_iff sources signature_source signature).0 s,
              (resolve_iff sources key_source key).0 k,
              a,
              (make_parent_iff files output).0 d,
            ),
        λ (signature, key, b, s, k, a, d).
            rw
              (
                main,
                loaded.1 (
                  signature,
                  key,
                  (fetch_bytes_iff sources program_source program).1 b,
                  (fetch_text_iff sources signature_source signature).1 s,
                  (resolve_iff sources key_source key).1 k,
                  a,
                ),
                (make_parent_iff files output).1 d,
              )
              refl,
      )
