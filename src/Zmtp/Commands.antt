-- ===== src/Zmtp/Commands.antt =====
-- The answers to a PING that zmtpproto.rs puts into the output buffer.
use daqingest.Base.{
  ℕ, ◌+◌, ◌-◌, ◌%◌, ◌≤◌, ◌≡◌, refl, sym, ap, ◌∙◌, true, Bool-cases, inl, inr, List, [], ◌∷◌, ◌++◌,
  append_assoc, append-nil, Act, pure, le→ltb_false, ltb_false→le, length, drop, length-append,
  length-drop, be_bytes, ltb, leb, le→leb, if◌then◌else◌, arith, Outcome, ok, ◌>>◌, bind-ok,
}
use daqingest.SlideBuf
use daqingest.SlideBuf.{
  SlideBuf, wcap, put_slice, put_u8, put_be, make_room, rewind_if_needed, rewind_if_short,
  check_space,
}
use daqingest.SlideBuf.Invariant.{IsValid, contents, length-contents, wcap-eq}
use daqingest.SlideBuf.Write.{put_slice_lem, put_slice-wcap}
use daqingest.Zmtp.{Error, Zmtp}
use daqingest.Zmtp.Parse.{
  unwrap_outbuf, put_command, answer_ping, is_ping, pong_name, ping_name, my_ctx,
}

-- A buffer to which `xs` was written.
pub record Grown (xs : List ℕ) (s t : SlideBuf) : Type 0 where
  pub valid : IsValid t
  pub size : length t.buf ≡ length s.buf
  pub bytes : contents t ≡ contents s ++ xs
  pub space : wcap s - length xs ≤ wcap t

Grown-trans :
    {s t u : SlideBuf} (xs ys : List ℕ) → Grown xs s t → Grown ys t u → Grown (xs ++ ys) s u
Grown-trans {s} xs ys g h = record {
  valid = h.valid;
  size = h.size ∙ g.size;
  bytes = h.bytes ∙ ap (λ q. q ++ ys) g.bytes ∙ append_assoc (contents s) xs ys;
  space = omega (arith, g.space, h.space, length-append xs ys);
}

-- A write that fits the space behind the write position.
put_slice-Grown :
    {s : SlideBuf} (xs : List ℕ)
    → IsValid s
    → length xs ≤ wcap s
    → (put_slice xs s ≡ (ok tt, (put_slice xs s).1)) × Grown xs s (put_slice xs s).1
put_slice-Grown {s} xs v h =
    let p = put_slice_lem xs v in
    let room : leb (length (contents s) + length xs) (length s.buf) ≡ true =
      le→leb _ _ (omega (arith, wcap-eq v, length-contents v, v)) in
    (
      ap (λ r. (r, (put_slice xs s).1)) (p.reply ∙ rw room),
      record {
        valid = p.valid;
        size = p.size;
        bytes = p.bytes ∙ rw room;
        space = put_slice-wcap xs v h;
      },
    )

abbrev pub command_bytes : List ℕ → List ℕ → List ℕ
command_bytes name ctx = 0x04 ∷ (5 + length ctx) ∷ (name ++ ctx)

abbrev pub out : {A : Type 0} → SlideBuf.Op A → SlideBuf → SlideBuf
out m s = (m s).1

unwrap_outbuf-fits :
    {z : Zmtp} (xs : List ℕ)
    → IsValid z.outbuf
    → length xs ≤ wcap z.outbuf
    → unwrap_outbuf (put_slice xs) z ≡ (ok tt, record z { outbuf = out (put_slice xs) z.outbuf })
unfolding unwrap_outbuf
unwrap_outbuf-fits xs v h = rw ((put_slice-Grown xs v h).0)

-- A state whose output buffer alone has grown.
pub record Sent (xs : List ℕ) (z : Zmtp) (r : Outcome Error Unit × Zmtp) : Type 0 where
  pub after : SlideBuf
  pub reply : r ≡ (ok tt, record z { outbuf = after })
  pub grown : Grown xs z.outbuf after

module _ {z : Zmtp} (name ctx : List ℕ) (v : IsValid z.outbuf) where
  pub put_command-Sent :
      length ctx ≤ 250
      → 2 + length name + length ctx ≤ wcap z.outbuf
      → Sent (command_bytes name ctx) z (put_command name ctx z)
  unfolding put_command put_u8 put_be be_bytes
  put_command-Sent small fits =
      let size : (5 + length ctx % 256) % 256 % 256 ≡ 5 + length ctx = omega arith in
      let b1 = out (put_slice (0x04 ∷ [])) z.outbuf in
      let g1 = put_slice-Grown (0x04 ∷ []) v (omega arith) in
      let b2 = out (put_slice ((5 + length ctx) ∷ [])) b1 in
      let g2 =
        put_slice-Grown {s = b1} ((5 + length ctx) ∷ []) g1.1.valid (omega (arith, g1.1.space)) in
      let b3 = out (put_slice name) b2 in
      let g3 = put_slice-Grown {s = b2} name g2.1.valid (omega (arith, g1.1.space, g2.1.space)) in
      let g4 =
        put_slice-Grown {s = b3} ctx g3.1.valid
          (omega (arith, g1.1.space, g2.1.space, g3.1.space)) in
      record {
        after = out (put_slice ctx) b3;
        reply = rw (
          size,
          unwrap_outbuf-fits {z = z} (0x04 ∷ []) v (omega arith),
          unwrap_outbuf-fits {z = record z { outbuf = b1 }} ((5 + length ctx) ∷ []) g1.1.valid
              (omega (arith, g1.1.space)),
          unwrap_outbuf-fits {z = record z { outbuf = b2 }} name g2.1.valid
              (omega (arith, g1.1.space, g2.1.space)),
          unwrap_outbuf-fits {z = record z { outbuf = b3 }} ctx g3.1.valid
              (omega (arith, g1.1.space, g2.1.space, g3.1.space)),
        );
        grown = Grown-trans (0x04 ∷ []) ((5 + length ctx) ∷ (name ++ ctx)) g1.1 (
            Grown-trans ((5 + length ctx) ∷ []) (name ++ ctx) g2.1
              (Grown-trans name ctx g3.1 g4.1));
      }

pub Sent-nothing : {z : Zmtp} → IsValid z.outbuf → Sent [] z (ok tt, z)
Sent-nothing {z} v = record {
  after = z.outbuf;
  reply = refl;
  grown = record {
    valid = v;
    size = refl;
    bytes = sym (append-nil (contents z.outbuf));
    space = omega arith;
  };
}

pub Sent-then :
    {z : Zmtp} (xs ys : List ℕ) (m k : Act Zmtp Error Unit)
    → (g : Sent xs z (m z))
    → Sent ys (record z { outbuf = g.after }) (k (record z { outbuf = g.after }))
    → Sent (xs ++ ys) z ((m >> k) z)
Sent-then xs ys m k g h = record {
  after = h.after;
  reply = bind-ok m (λ _. k) g.reply ∙ h.reply;
  grown = Grown-trans xs ys g.grown h.grown;
}

-- the two steps of `answer_ping`
abbrev pub answer_pong : List ℕ → Act Zmtp Error Unit
answer_pong bytes z =
    (if ltb (wcap z.outbuf) (length bytes) then pure tt else put_command pong_name (drop 7 bytes)) z

abbrev pub send_ping : Act Zmtp Error Unit
send_ping z = (if ltb (wcap z.outbuf) 32 then pure tt else put_command ping_name my_ctx) z

answer_ping-eq :
    (bytes : List ℕ) (z : Zmtp) → answer_ping bytes z ≡ (answer_pong bytes >> send_ping) z
unfolding answer_ping
answer_ping-eq bytes z = refl

abbrev pub pong_bytes : List ℕ → List ℕ
pong_bytes bytes = command_bytes pong_name (drop 7 bytes)

abbrev pub ping_bytes : List ℕ
ping_bytes = command_bytes ping_name my_ctx

module _ {z : Zmtp} (bytes : List ℕ) (v : IsValid z.outbuf) (long : 7 ≤ length bytes)
    (short : length bytes ≤ 32) where
  pub answer_pong-Sent :
      Sent
        (if ltb (wcap z.outbuf) (length bytes) then [] else pong_bytes bytes)
        z
        (answer_pong bytes z)
  answer_pong-Sent = elim (Bool-cases (ltb (wcap z.outbuf) (length bytes))) [
    | inl c ↦ rw c (Sent-nothing v)
    | inr c ↦ rw c (
        put_command-Sent pong_name (drop 7 bytes) v (omega (arith, length-drop 7 bytes))
          (omega (arith, length-drop 7 bytes, ltb_false→le _ _ c)))
  ]

  answer_pong-fits : length bytes ≤ wcap z.outbuf → Sent (pong_bytes bytes) z (answer_pong bytes z)
  answer_pong-fits fits =
      let few = length-drop 7 bytes in
      rw (le→ltb_false _ _ fits)
        (put_command-Sent pong_name (drop 7 bytes) v (omega (arith, few)) (omega (arith, few)))

send_ping-fits :
    {z : Zmtp} → IsValid z.outbuf → 32 ≤ wcap z.outbuf → Sent ping_bytes z (send_ping z)
send_ping-fits v fits =
    rw (le→ltb_false _ _ fits) (put_command-Sent ping_name my_ctx v (omega arith) (omega arith))

pub send_ping-Sent :
    {z : Zmtp}
    → IsValid z.outbuf
    → Sent (if ltb (wcap z.outbuf) 32 then [] else ping_bytes) z (send_ping z)
send_ping-Sent {z} v = elim (Bool-cases (ltb (wcap z.outbuf) 32)) [
  | inl c ↦ rw c (Sent-nothing v)
  | inr c ↦
      rw c (put_command-Sent ping_name my_ctx v (omega arith) (omega (arith, ltb_false→le _ _ c)))
]

-- What is sent, whatever it is.
pub record AnySent (z : Zmtp) (r : Outcome Error Unit × Zmtp) : Type 0 where
  pub bytes : List ℕ
  pub sent : Sent bytes z r

AnySent-of : {z : Zmtp} {xs : List ℕ} {r : Outcome Error Unit × Zmtp} → Sent xs z r → AnySent z r
AnySent-of {z} {xs} h = record { bytes = xs; sent = h }

pub answer_ping-AnySent :
    {z : Zmtp} (bytes : List ℕ)
    → IsValid z.outbuf
    → 7 ≤ length bytes
    → length bytes ≤ 32
    → AnySent z (answer_ping bytes z)
answer_ping-AnySent {z} bytes v long short =
    let a = answer_pong-Sent bytes v long short in
    let b = send_ping-Sent {z = record z { outbuf = a.after }} a.grown.valid in
    rw (answer_ping-eq bytes z) (AnySent-of (Sent-then _ _ (answer_pong bytes) send_ping a b))

-- A PING of 7 to 32 bytes, for which a valid output buffer has room and 32 bytes more, is
-- answered without a panic by exactly a PONG with the bytes behind the first seven, and a PING
-- of its own; nothing but the output buffer changes.
pub answer_ping-Sent :
    {z : Zmtp} (bytes : List ℕ)
    → IsValid z.outbuf
    → 7 ≤ length bytes
    → length bytes ≤ 32
    → length bytes + 32 ≤ wcap z.outbuf
    → Sent (pong_bytes bytes ++ ping_bytes) z (answer_ping bytes z)
answer_ping-Sent {z} bytes v long short room =
    let a = answer_pong-fits bytes v long short (omega arith) in
    let b =
      send_ping-fits {z = record z { outbuf = a.after }} a.grown.valid
        (omega (arith, a.grown.space, length-drop 7 bytes)) in
    rw (answer_ping-eq bytes z)
      (Sent-then (pong_bytes bytes) ping_bytes (answer_pong bytes) send_ping a b)

pub is_ping-size :
    (bytes : List ℕ) → is_ping bytes ≡ true → (7 ≤ length bytes) × (length bytes ≤ 32)
unfolding is_ping
is_ping-size bytes h = ground arith
