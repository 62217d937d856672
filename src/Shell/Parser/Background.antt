-- ===== src/Shell/Parser/Background.antt =====
-- userspace/shell/parser.c, the mark of a list with `&`.
use hydrogen_os.Prelude.{
  ℕ, suc, ◌-◌, ◌%◌, ◌^◌, ◌≤◌, ◌≡◌, ◌∙◌, refl, sym, subst, ap, true, List, [], ◌∷◌, ◌++◌, length,
  length-append, arith,
}
use mathlib.Core.List.{append_assoc}
use hydrogen_os.Shell.{max_pipelines}
use hydrogen_os.Shell.Parser.{Pipeline, mark_background}
use hydrogen_os.Shell.Parser.Grammar.{end_of_last, in_background}

mark_background-here :
    (n e : ℕ) (ps : List Pipeline)
    → n % 2 ^ 8 ≡ length ps
    → e ≡ end_of_last e ps
    → mark_background 0 n e ps ≡ in_background ps
unfolding mark_background
mark_background-here n e [] h l = refl
mark_background-here n e (p ∷ ps) h l =
    ap (λ t. record p { background = true; list_length = t; source_end = e } ∷ ps) h
    ∙ ap (λ t. record p { background = true; list_length = length (p ∷ ps); source_end = t } ∷ ps) l

mark_background-append :
    (done ps : List Pipeline) (n e : ℕ)
    → mark_background (length done) n e (done ++ ps) ≡ done ++ mark_background 0 n e ps
unfolding mark_background
mark_background-append [] ps n e = refl
mark_background-append (d ∷ done) ps n e = ap (λ t. d ∷ t) (mark_background-append done ps n e)

end_of_last-append :
    (e : ℕ) (ps : List Pipeline) (p : Pipeline) → end_of_last e (ps ++ (p ∷ [])) ≡ p.source_end
end_of_last-append e [] p = refl
end_of_last-append e (q ∷ ps) p = end_of_last-append q.source_end ps p

pub length-in_background :
    (done ps : List Pipeline) → length (done ++ in_background ps) ≡ length (done ++ ps)
length-in_background [] [] = refl
length-in_background [] (p ∷ ps) = refl
length-in_background (d ∷ done) ps = ap suc (length-in_background done ps)

pub mark_background-list :
    (done current : List Pipeline) (p : Pipeline) (list_start : ℕ)
    → list_start ≡ length done
    → length ((done ++ current) ++ (p ∷ [])) ≤ max_pipelines
    → mark_background list_start
        (length ((done ++ current) ++ (p ∷ [])) - list_start)
        p.source_end
        ((done ++ current) ++ (p ∷ []))
      ≡ done ++ in_background (current ++ (p ∷ []))
mark_background-list done current p list_start s n =
    let list = current ++ (p ∷ []) in
    let assoc = append_assoc done current (p ∷ []) in
    let few = subst (λ t. length t ≤ max_pipelines) assoc n in
    let count : (length (done ++ list) - length done) % 2 ^ 8 ≡ length list =
      ground (arith, few, length-append done list) in
    let here =
      mark_background-here (length (done ++ list) - length done) p.source_end list count
        (sym (end_of_last-append p.source_end current p)) in
    rw (s, assoc)
      (mark_background-append done list (length (done ++ list) - length done) p.source_end
        ∙ ap (λ t. done ++ t) here)
