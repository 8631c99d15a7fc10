-- ===== src/Background/Checkpoint.antt =====
-- The checkpoints of crates/peko-core/src/background.rs, from which a job resumes. `to_bytes` is
-- MessagePack's encoding, which may fail; `size` is the length of its bytes.
use peko_agent.Base.{
  ℕ, suc, ◌≤◌, ◌≡◌, refl, ◌⊎◌, inl, inr, arith, Bool, true, false, Option, none, some, List, [],
  ◌∷◌, ◌++◌, ltb, length, if◌then◌else◌, ap, drop, any, subst, ◌∙◌, Bool-cases,
}
use peko_agent.Base.Results.{Result, ok, >>=-eq-ok, ◌>>=◌}
use peko_agent.Text.{Text, text, is_empty}
use peko_agent.Message.{Message, system, user, assistant, tool_result}

pub record Checkpoint (V : Type 0) : Type 0 where
  pub task : Text
  pub iterations : ℕ
  pub tokens_so_far : ℕ
  pub messages : List (Message V)
  pub system_prompt_snapshot : Option Text
  pub schema : ℕ

abbrev pub checkpoint_max_bytes : ℕ
checkpoint_max_bytes = 262144

abbrev pub dropped_marker : Text
dropped_marker = text "[image attached; dropped on checkpoint, re-capture if needed]"

module _ {V : Type 0} where
  unfoldable pub sanitise_message : Message V → Message V
  sanitise_message (tool_result id name content is_error (some image)) =
      tool_result id name
        (if is_empty content then dropped_marker else content ++ (text "\n" ++ dropped_marker))
        is_error none
  sanitise_message (tool_result id name content is_error none) =
      tool_result id name content is_error none
  sanitise_message (system t) = system t
  sanitise_message (user t) = user t
  sanitise_message (assistant t calls) = assistant t calls

  unfoldable pub sanitise_messages : List (Message V) → List (Message V)
  unfolding sanitise_message
  sanitise_messages [] = []
  sanitise_messages (m ∷ ms) = sanitise_message m ∷ sanitise_messages ms

  unfoldable pub new : Text → ℕ → List (Message V) → Checkpoint V
  unfolding sanitise_messages
  new task iterations messages = record {
    task = task;
    iterations = iterations;
    tokens_so_far = 0;
    messages = sanitise_messages messages;
    system_prompt_snapshot = none;
    schema = 1;
  }

  module _ {B : Type 0} (to_bytes : Checkpoint V → Result B Text) (size : B → ℕ) where
    -- The loop that removes the message behind the first while the bytes are too many and more than
    -- two messages are left. `front` is the first message, and the list holds the others.
    unfoldable pub shrink : Checkpoint V → Message V → List (Message V) → B → Result B Text
    shrink c front [] blob = ok blob
    shrink c front (m ∷ []) blob = ok blob
    shrink c front (m ∷ n ∷ ms) blob =
        if ltb checkpoint_max_bytes (size blob)
        then to_bytes (record c { messages = front ∷ n ∷ ms }) >>= shrink c front (n ∷ ms)
        else ok blob

    abbrev pub shrunk : Checkpoint V → List (Message V) → B → Result B Text
    shrunk c [] blob = ok blob
    shrunk c (m ∷ ms) blob = shrink c m ms blob

    unfoldable pub encode : Checkpoint V → Result B Text
    unfolding shrink
    encode c = to_bytes c >>= shrunk c c.messages

    -- The bytes encode the checkpoint with its first message and the last of its others.
    pub record IsShortened (c : Checkpoint V) (front : Message V) (ms : List (Message V)) (blob : B)
        : Type 0 where
      pub tail : List (Message V)
      pub removed : ℕ
      pub is_tail : tail ≡ drop removed ms
      pub bytes : to_bytes (record c { messages = front ∷ tail }) ≡ ok blob
      pub fits : (size blob ≤ checkpoint_max_bytes) ⊎ (length tail ≤ 1)

    shrink-IsShortened :
        (c : Checkpoint V) (front : Message V) (ms : List (Message V)) (blob : B) {out : B}
        → to_bytes (record c { messages = front ∷ ms }) ≡ ok blob
        → shrink c front ms blob ≡ ok out
        → IsShortened c front ms out
    unfolding shrink
    shrink-IsShortened c front [] blob h e = record {
      tail = [];
      removed = 0;
      is_tail = refl;
      bytes = h ∙ e;
      fits = inr (omega arith);
    }
    shrink-IsShortened c front (m ∷ []) blob h e = record {
      tail = m ∷ [];
      removed = 0;
      is_tail = refl;
      bytes = h ∙ e;
      fits = inr (omega arith);
    }
    shrink-IsShortened c front (m ∷ n ∷ ms) blob {out} h e =
        on_size (Bool-cases (ltb checkpoint_max_bytes (size blob)))
          (λ blob2 p q. shrink-IsShortened c front (n ∷ ms) blob2 p q)
      where
        on_size :
            ((ltb checkpoint_max_bytes (size blob) ≡ true)
              ⊎ (ltb checkpoint_max_bytes (size blob) ≡ false))
            → ((b : B)
                → to_bytes (record c { messages = front ∷ n ∷ ms }) ≡ ok b
                → shrink c front (n ∷ ms) b ≡ ok out
                → IsShortened c front (n ∷ ms) out)
            → IsShortened c front (m ∷ n ∷ ms) out
        on_size (inl t) f =
            let k : (to_bytes (record c { messages = front ∷ n ∷ ms }) >>= shrink c front (n ∷ ms))
                ≡ ok out =
              ground (arith, t, e) in
            let (b, p, q) = >>=-eq-ok (to_bytes (record c { messages = front ∷ n ∷ ms })) _ k in
            let r = f b p q in
            record {
              tail = r.tail;
              removed = suc r.removed;
              is_tail = r.is_tail;
              bytes = r.bytes;
              fits = r.fits;
            }
        on_size (inr t) f =
            let k : blob ≡ out = ground (arith, t, e) in
            record {
              tail = m ∷ n ∷ ms;
              removed = 0;
              is_tail = refl;
              bytes = h ∙ ap (λ z. ok z) k;
              fits = inl (subst (λ z. size z ≤ checkpoint_max_bytes) k (ground (arith, t)));
            }

    -- A checkpoint that is encoded keeps its first message, and of the others it drops the oldest
    -- only; the bytes are within the cap, or at most two messages are left.
    pub encode-IsShortened :
        (c : Checkpoint V) (front : Message V) (ms : List (Message V)) {out : B}
        → c.messages ≡ front ∷ ms
        → encode c ≡ ok out
        → IsShortened c front ms out
    unfolding encode
    encode-IsShortened c front ms {out} q e =
        let (b, p, r) = >>=-eq-ok (to_bytes c) (shrunk c c.messages) e in
        shrink-IsShortened c front ms b
          (subst (λ z. to_bytes (record c { messages = z }) ≡ ok b) q p)
          (subst (λ z. shrunk c z b ≡ ok out) q r)

  -- A message without image data.
  abbrev pub has_image : Message V → Bool
  has_image (tool_result id name content is_error (some image)) = true
  has_image (tool_result id name content is_error none) = false
  has_image (system t) = false
  has_image (user t) = false
  has_image (assistant t calls) = false

  sanitise_message-has_image : (m : Message V) → has_image (sanitise_message m) ≡ false
  unfolding sanitise_message
  sanitise_message-has_image (tool_result id name content is_error (some image)) = refl
  sanitise_message-has_image (tool_result id name content is_error none) = refl
  sanitise_message-has_image (system t) = refl
  sanitise_message-has_image (user t) = refl
  sanitise_message-has_image (assistant t calls) = refl

  -- The messages of a new checkpoint are as many as before, and none has an image.
  pub new-images :
      (task : Text) (iterations : ℕ) (ms : List (Message V))
      → (any has_image (new task iterations ms).messages ≡ false)
        × (length (new task iterations ms).messages ≡ length ms)
  unfolding new sanitise_messages
  new-images task iterations [] = (refl, refl)
  new-images task iterations (m ∷ ms) =
      let (p, q) = new-images task iterations ms in
      (rw (sanitise_message-has_image m) p, ap (λ n. suc n) q)
