-- ===== src/Instance/Logs/Tail.antt =====
-- The tail holds the last frames that were published, at most 32.
use clash_nyanpasu_service.Shared.{
  ℕ, zero, suc, ◌+◌, ◌-◌, ◌≤◌, ◌≡◌, refl, sym, ap, ◌∙◌, inl, inr, ◌==◌, List, [], ◌∷◌, ◌++◌, length,
  drop, length-append, append_assoc, append-nil, arith, Bool-cases,
}
use clash_nyanpasu_service.Instance.Logs.{log_tail_frames, pop_front, push_frame, push_frames}

module _ {ℓ} {A : Type ℓ} where
  -- The last 32 of the frames.
  abbrev pub last_frames : List A → List A
  last_frames all = drop (length all - log_tail_frames) all

  drop-append : (n : ℕ) (xs ys : List A) → n ≤ length xs → drop n (xs ++ ys) ≡ drop n xs ++ ys
  drop-append zero xs ys h = refl
  drop-append (suc n) [] ys h = absurd (omega arith)
  drop-append (suc n) (x ∷ xs) ys h = drop-append n xs ys (omega arith)

  pop_front-drop : (n : ℕ) (xs : List A) → pop_front (drop n xs) ≡ drop (suc n) xs
  unfolding pop_front
  pop_front-drop zero [] = refl
  pop_front-drop zero (x ∷ xs) = refl
  pop_front-drop (suc n) [] = refl
  pop_front-drop (suc n) (x ∷ xs) = pop_front-drop n xs

  length-drop : (n : ℕ) (xs : List A) → length (drop n xs) ≡ length xs - n
  length-drop zero xs = omega arith
  length-drop (suc n) [] = omega arith
  length-drop (suc n) (x ∷ xs) = omega (arith, length-drop n xs)

  last_frames-snoc :
      (all : List A) (frame : A) (k : ℕ)
      → k ≤ length all
      → length all + 1 - log_tail_frames ≡ k
      → last_frames (all ++ frame ∷ []) ≡ drop k all ++ frame ∷ []
  last_frames-snoc all frame k h e =
      ap (λ n. drop n (all ++ frame ∷ [])) (omega (arith, e, length-append all (frame ∷ [])))
      ∙ drop-append k all (frame ∷ []) h

  push_frame-last :
      (all : List A) (frame : A)
      → push_frame frame (last_frames all) ≡ last_frames (all ++ frame ∷ [])
  unfolding push_frame
  push_frame-last all frame =
      let n : length (last_frames all) ≡ length all - (length all - log_tail_frames) =
        length-drop (length all - log_tail_frames) all in
      elim (Bool-cases (length (last_frames all) == log_tail_frames)) [
        | inl t ↦ rw t (
            ap (λ (xs : List A). xs ++ frame ∷ [])
              (pop_front-drop (length all - log_tail_frames) all)
            ∙ sym (
                last_frames-snoc all frame (suc (length all - log_tail_frames))
                  (ground (arith, n, t)) (ground (arith, n, t))))
        | inr t ↦ rw t (
            sym (
              last_frames-snoc all frame (length all - log_tail_frames) (omega arith)
                (ground (arith, n, t))))
      ]

  -- Frames published one after another leave in the tail the last 32 of all that were ever published.
  pub push_frames-last :
      (all frames : List A) → push_frames frames (last_frames all) ≡ last_frames (all ++ frames)
  unfolding push_frames
  push_frames-last all [] = ap last_frames (sym (append-nil all))
  push_frames-last all (frame ∷ frames) =
      ap (push_frames frames) (push_frame-last all frame)
      ∙ push_frames-last (all ++ frame ∷ []) frames
      ∙ ap last_frames (append_assoc all (frame ∷ []) frames)
