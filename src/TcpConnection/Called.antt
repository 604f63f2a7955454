-- ===== src/TcpConnection/Called.antt =====
-- What a handler of the check keeps, with the callback inside it.
use photogram.Prelude.{
  All, ◌≡◌, refl, sym, subst, ap, inl, inr, Bool, false, List, [], ◌∷◌, length, drop, drop-all,
  arith,
}
use photogram.Outcome.{ok, Outcome-cases}
use photogram.Text.{Bytes}
use photogram.Action.{Action, pure, lift, ◌>>=◌}
use photogram.FormResponse.{Beast}
use photogram.AnotherServerConnection.{
  BoostJson, ServerResponse, Connection, Completion, received, check_step, idle_check,
}
use photogram.AnotherServerConnection.Runs.{verdict}
use photogram.AnotherServerConnection.Given.{fresh, given, check_step-Steps, check_step-over}
use photogram.TcpConnection.{ContentApi}
use photogram.TcpConnection.Exchange.{
  Stage, reading, checking, writing, ended, Local, in_world, set_stage, call_back_all, on_check,
}
use photogram.TcpConnection.Explained.{
  Holds, IsCallback, of_callback, Awaits, LocalExplained, as_stage, then-same, lift-same,
}

module _ (beast : Beast) (api : ContentApi beast) (j : BoostJson) where
  open beast use {Request, Response}
  open api use {World}

  module _ (Asked : Request → Type 0) (Allowed : Bytes → Type 0) (P : World → Type 0) where
    module _
        (calls : (callback : Bytes → Action World Response) (id : Bytes)
          → IsCallback beast api j Asked callback
          → Allowed id
          → Holds P (callback id)) where
      call_back_all-Explained :
          (stage : Stage beast api j) (ids : List Bytes) (s : Local beast api j)
          → s.link.stage ≡ stage
          → LocalExplained beast api j Asked Allowed P s
          → All Allowed ids
          → LocalExplained beast api j Asked Allowed P (call_back_all beast api j stage ids s).1
      unfolding in_world set_stage pure ◌>>=◌
      call_back_all-Explained (checking callback) (id ∷ ids) s e (h, p) (a, _) =
          let h' = as_stage beast api j Asked Allowed P (checking callback) s e h in
          elim (Outcome-cases (callback id s.world).0) [
            | inl (response, q) ↦ rw q (
              (h'.0, of_callback callback id s.world h'.1 a q),
              calls callback id h'.1 a s.world p,
            )
            | inr (inl (x, q)) ↦ rw q (h, calls callback id h'.1 a s.world p)
            | inr (inr q) ↦ rw q (h, calls callback id h'.1 a s.world p)
          ]
      call_back_all-Explained (checking callback) [] s e h a = h
      call_back_all-Explained reading ids s e h a = h
      call_back_all-Explained (writing response) ids s e h a = h
      call_back_all-Explained ended ids s e h a = h

      module _ (c : Completion)
          (gives : (d : Bool) (reply : ServerResponse) (id : Bytes)
            → c ≡ received false d reply
            → verdict j reply ≡ ok id
            → Allowed id) where
        checked-Awaits :
            (s : Connection)
            → Awaits beast api j Asked Allowed s
            → Awaits beast api j Asked Allowed (check_step j c s).1
              × All Allowed (drop (length s.ids) (check_step j c s).1.ids)
        checked-Awaits s (inl f) = elim (check_step-Steps j c s f) [
          | fresh g ↦ (inl g, rw (g.ids, f.ids) tt)
          | given d reply id e v i n ↦ (inr n, rw (i, f.ids) (gives d reply id e v, tt))
        ]
        checked-Awaits s (inr n) =
            rw (check_step-over j c s n)
              (inr refl, rw (drop-all (length s.ids) s.ids (omega arith)) tt)

        idle-stays : (s : Connection) → s ≡ idle_check → (check_step j c s).1 ≡ idle_check
        idle-stays s e =
            subst (λ s. (check_step j c s).1 ≡ idle_check) (sym e)
              (ap (λ r. r.1) (check_step-over j c idle_check refl))

        on_stage :
            (stage : Stage beast api j) (s : Local beast api j)
            → s.link.stage ≡ stage
            → LocalExplained beast api j Asked Allowed P s
            → LocalExplained beast api j Asked Allowed P
                (call_back_all beast api j stage
                  (drop (length s.link.check.ids) (check_step j c s.link.check).1.ids)
                  (record s { link = record s.link { check = (check_step j c s.link.check).1 } })).1
        unfolding pure
        on_stage reading s e (h, p) =
            let h' = as_stage beast api j Asked Allowed P reading s e h in
            (rw e (h'.0, idle-stays s.link.check h'.1), p)
        on_stage (checking callback) s e (h, p) =
            let h' = as_stage beast api j Asked Allowed P (checking callback) s e h in
            let a = checked-Awaits s.link.check h'.2 in
            call_back_all-Explained (checking callback) _ _ e (rw e (h'.0, h'.1, a.0), p) a.1
        on_stage (writing response) s e (h, p) =
            (rw e (as_stage beast api j Asked Allowed P (writing response) s e h), p)
        on_stage ended s e (h, p) = (rw e (as_stage beast api j Asked Allowed P ended s e h), p)

        pub on_check-Explained :
            (s : Local beast api j)
            → LocalExplained beast api j Asked Allowed P s
            → LocalExplained beast api j Asked Allowed P (on_check beast api j c s).1
        unfolding on_check
        on_check-Explained s h =
            subst (LocalExplained beast api j Asked Allowed P)
              (sym (
                then-same beast api j Asked Allowed P _ (lift (check_step j c s.link.check).0) _
                  (lift-same beast api j Asked Allowed P _)))
              (on_stage s.link.stage s refl h)
