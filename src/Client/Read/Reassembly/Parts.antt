-- ===== src/Client/Read/Reassembly/Parts.antt =====
-- A part of a stream of frames, as `ReadStream` of connclient/src/conn_client.cpp finds it.
use defold_connclient.Prelude.{
  ℕ, ◌≤◌, ◌<◌, ◌≡◌, refl, sym, ap, ap₂, ◌∙◌, List, [], ◌∷◌, ◌++◌, length, drop, length-drop, ltb,
  tests, Bool-cases, inl, inr, arith, append_assoc,
}
use defold_connclient.Client.Send.Framing.{frame}
use defold_connclient.Client.Read.Reassembly.{IsPartial, AreShort, frames, length-frame}

-- One of two cuts of a list lies behind the other.
cut_behind :
    (xs ys us vs : List ℕ)
    → xs ++ ys ≡ us ++ vs
    → length xs ≤ length us
    → (us ≡ xs ++ drop (length xs) us) × (drop (length xs) us ++ vs ≡ ys)
cut_behind [] ys us vs h n = (refl, sym h)
cut_behind (x ∷ xs) ys [] vs h n = absurd (omega (arith, n))
cut_behind (x ∷ xs) ys (u ∷ us) vs h n =
    let same : x ≡ u = cc in
    let rest : xs ++ ys ≡ us ++ vs = cc in
    let cut = cut_behind xs ys us vs rest (omega (arith, n)) in
    (ap₂ (λ y zs. y ∷ zs) (sym same) cut.0, cut.1)

-- Of the frames of these messages no whole one.
abbrev pub IsBegun : ℕ → ℕ → List (List ℕ) → List ℕ → Type 0
IsBegun flow magic [] tail = tail ≡ []
IsBegun flow magic (msg ∷ msgs) tail = length tail < length (frame flow magic 1 msg)

-- A part of the frames of messages: the whole frames in it, and what is there of the next one.
pub record Parts (flow magic : ℕ) (msgs : List (List ℕ)) (part rest : List ℕ) : Type 0 where
  pub whole : List (List ℕ)
  pub later : List (List ℕ)
  pub tail : List ℕ
  pub all : msgs ≡ whole ++ later
  pub shape : part ≡ frames flow magic whole ++ tail
  pub left : tail ++ rest ≡ frames flow magic later
  pub cut : IsPartial flow magic tail
  pub begun : IsBegun flow magic later tail

pub IsPartial-none : (flow magic : ℕ) → IsPartial flow magic []
IsPartial-none flow magic =
    ([], frame flow magic 1 [], refl, omega (arith, length-frame flow magic []), omega arith)

pub frames-Parts :
    (flow magic : ℕ) (msgs : List (List ℕ)) (part rest : List ℕ)
    → AreShort msgs
    → part ++ rest ≡ frames flow magic msgs
    → Parts flow magic msgs part rest
frames-Parts flow magic [] [] rest small h = record {
  whole = [];
  later = [];
  tail = [];
  all = refl;
  shape = refl;
  left = h;
  cut = IsPartial-none flow magic;
  begun = refl;
}
frames-Parts flow magic [] (b ∷ part) rest small h = absurd cc
frames-Parts flow magic (msg ∷ msgs) part rest small h =
    elim (Bool-cases (ltb (length part) (length (frame flow magic 1 msg)))) [
      | inl inside ↦
          let behind =
            cut_behind part rest (frame flow magic 1 msg) (frames flow magic msgs) h
              (omega tests) in
          record {
            whole = [];
            later = msg ∷ msgs;
            tail = part;
            all = refl;
            shape = refl;
            left = h;
            cut = (
              msg,
              drop (length part) (frame flow magic 1 msg),
              behind.0,
              omega (tests, inside, length-drop (length part) (frame flow magic 1 msg)),
              small.0,
            );
            begun = omega tests;
          }
      | inr beyond ↦
          let behind =
            cut_behind (frame flow magic 1 msg) (frames flow magic msgs) part rest (sym h)
              (omega tests) in
          let further =
            frames-Parts flow magic msgs (drop (length (frame flow magic 1 msg)) part) rest small.1
              behind.1 in
          record {
            whole = msg ∷ further.whole;
            later = further.later;
            tail = further.tail;
            all = ap (λ later. msg ∷ later) further.all;
            shape =
                behind.0
                ∙ ap (λ bytes. frame flow magic 1 msg ++ bytes) further.shape
                ∙ sym (
                    append_assoc (frame flow magic 1 msg) (frames flow magic further.whole)
                      further.tail);
            left = further.left;
            cut = further.cut;
            begun = further.begun;
          }
    ]
