-- ===== src/Ws/Certificates.antt =====
-- Whom src/ws.rs issues sender certificates to.
use axeno_relay.Prelude.{
  ℕ, ◌≤◌, ◌≡◌, ◌⊎◌, inl, inr, refl, sym, ap, true, not, ◌||◌, ◌==◌, Option, none, some, List, [],
  ◌∷◌, arith, length, ltb, Text, Bytes, text_eq, text_eq_iff, ok, Bool-cases, Option-cases,
  Result-cases, saturating_add,
}
use axeno_relay.Config.{sender_cert_ttl_ms}
use axeno_relay.Protocol.{sender_certificate, err_frame}
use axeno_relay.Util.{valid_recipient_id}
use axeno_relay.Ws.Session.{WsApi, Frame, State, Inputs}
use axeno_relay.Ws.Mailbox.{
  sign_certificate, issue_sender_certificate, certificate_reply, handle_certificate,
}

module _ (api : WsApi) where
  open api use {PublicKey, DeviceId, Rng, SenderCertificate}

  -- The frame holds a certificate of the relay for the mailbox, the device and the key, that
  -- expires a day after the clock's reading.
  pub record IsIssued (inp : Inputs api) (request_id rid : Text) (device : ℕ) (key : Text)
      (s : State api) (frame : Frame api) : Type 0 where
    pub key_bytes : Bytes
    pub decoded : api.decode key ≡ some key_bytes
    pub public_key : PublicKey
    pub parsed : api.deserialize key_bytes ≡ ok public_key
    pub rng : Rng
    pub device_id : DeviceId
    pub device_known : api.device_id device ≡ some device_id
    pub certificate : SenderCertificate
    pub signed :
        api.new_certificate rid public_key device_id
          (saturating_add inp.now_ms sender_cert_ttl_ms)
          s.crypto.server_certificate
          s.crypto.server_signing_private
          rng
        ≡ ok certificate
    pub bytes : Bytes
    pub printed : api.serialized certificate ≡ ok bytes
    pub framed :
        frame
        ≡ sender_certificate request_id
            (api.encode bytes)
            s.crypto.trust_root_public_b64
            (saturating_add inp.now_ms sender_cert_ttl_ms)

  sign_certificate-IsIssued :
      (inp : Inputs api) (request_id rid : Text) (device : ℕ) (key : Text) (s : State api)
      (frame : Frame api)
      → sign_certificate api inp request_id rid device key s ≡ ok frame
      → IsIssued inp request_id rid device key s frame
  unfolding sign_certificate
  sign_certificate-IsIssued inp request_id rid device key s frame =
      let expiry = saturating_add inp.now_ms sender_cert_ttl_ms in
      elim (Option-cases (api.decode key)) [
        | inl a ↦ rw (a, sign_certificate) (λ h. absurd cc)
        | inr (raw, a) ↦ elim (Result-cases (api.deserialize raw)) [
          | inl (e, b) ↦ rw (a, b, sign_certificate) (λ h. absurd cc)
          | inr (public, b) ↦ elim (Result-cases inp.rng) [
            | inl (e, c) ↦ rw (a, b, c, sign_certificate) (λ h. absurd cc)
            | inr (rng, c) ↦ elim (Option-cases (api.device_id device)) [
              | inl d ↦ rw (a, b, c, d, sign_certificate) (λ h. absurd cc)
              | inr (dev, d) ↦
                  elim (Result-cases (
                    api.new_certificate rid public dev expiry s.crypto.server_certificate
                      s.crypto.server_signing_private rng)) [
                        | inl (e, f) ↦ rw (a, b, c, d, f, sign_certificate) (λ h. absurd cc)
                        | inr (cert, f) ↦ elim (Result-cases (api.serialized cert)) [
                          | inl (e, g) ↦ rw (a, b, c, d, f, g, sign_certificate) (λ h. absurd cc)
                          | inr (raw_cert, g) ↦
                              rw (a, b, c, d, f, g, sign_certificate)
                                (λ h. record {
                                  key_bytes = raw;
                                  decoded = a;
                                  public_key = public;
                                  parsed = b;
                                  rng = rng;
                                  device_id = dev;
                                  device_known = d;
                                  certificate = cert;
                                  signed = f;
                                  bytes = raw_cert;
                                  printed = g;
                                  framed = cc;
                                })
                        ]
                      ]
            ]
          ]
        ]
      ]

  -- An error, or a certificate.
  abbrev pub IsAnswered :
      Inputs api → Text → Text → ℕ → Text → State api → List (Frame api) → Type 0
  IsAnswered inp request_id rid device key s replies =
      ((code : Text) × (message : Text) × (replies ≡ err_frame code message ∷ []))
      ⊎ ((frame : Frame api) × (replies ≡ frame ∷ [])
          × ((valid_recipient_id rid ≡ true) × (1 ≤ device) × (device ≤ 127))
          × IsIssued inp request_id rid device key s frame)

  issue_sender_certificate-IsAnswered :
      (inp : Inputs api) (request_id rid : Text) (device : ℕ) (key : Text) (s : State api)
      → IsAnswered inp request_id rid device key s (
          certificate_reply api (issue_sender_certificate api inp request_id rid device key s) ∷ [])
  unfolding issue_sender_certificate
  issue_sender_certificate-IsAnswered inp request_id rid device key s =
      elim (Bool-cases (not (valid_recipient_id rid) || (device == 0) || ltb 127 device)) [
        | inl a ↦ rw (a, issue_sender_certificate) (inl (_, _, refl))
        | inr a ↦ elim (Bool-cases (ltb 64 (length key))) [
          | inl b ↦ rw (a, b, issue_sender_certificate) (inl (_, _, refl))
          | inr b ↦ elim (Result-cases (sign_certificate api inp request_id rid device key s)) [
            | inl (e, c) ↦ rw (a, b, c, issue_sender_certificate) (inl (_, _, refl))
            | inr (frame, c) ↦
                rw (a, b, c, issue_sender_certificate)
                  (inr (
                    frame,
                    refl,
                    (ground (arith, a), ground (arith, a), ground (arith, a)),
                    sign_certificate-IsIssued inp request_id rid device key s frame c,
                  ))
          ]
        ]
      ]

  -- Whatever a socket asks for, the state stays as it is, and the reply is an error or a certificate
  -- for the mailbox that the socket was admitted to, for a device from 1 to 127 and the key of the
  -- request, signed with the relay's key and valid for a day from the clock's reading.
  pub handle_certificate-IsAnswered :
      (inp : Inputs api) (request_id rid : Text) (device : ℕ) (key : Text) (session : Option Text)
      (s : State api)
      → ((handle_certificate api inp request_id rid device key session s).state ≡ s)
        × (((code : Text) × (message : Text) × ((handle_certificate api inp request_id rid device
                  key session s).replies
                ≡ err_frame code message ∷ []))
            ⊎ (session ≡ some rid)
              × IsAnswered inp request_id rid device key s
                  (handle_certificate api inp request_id rid device key session s).replies)
  unfolding handle_certificate
  handle_certificate-IsAnswered inp request_id rid device key none s = (refl, inl (_, _, refl))
  handle_certificate-IsAnswered inp request_id rid device key (some own) s =
      elim (Bool-cases (text_eq rid own)) [
        | inr a ↦ rw (a, handle_certificate) (refl, inl (_, _, refl))
        | inl a ↦
            rw (a, handle_certificate)
              (
                refl,
                inr (
                  ap some (sym ((text_eq_iff rid own).0 a)),
                  issue_sender_certificate-IsAnswered inp request_id rid device key s,
                ),
              )
      ]
