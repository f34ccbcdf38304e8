-- ===== src/K8s/CreateDialog/Laws.antt =====
-- The answers in the dialogs that create a Kubernetes resource
-- (frontend/src/pages/k8s/ServiceList.tsx and the other lists of this form).
use mrboard.Shared.{◌≡◌, arith, Text}
use mrboard.Session.Api.{thrown}
use mrboard.K8s.CreateDialog.{FormKind, Dialog, handle_create, create_answered}

module _ {F B : Type 0} (kind : FormKind F B) where
  -- A failure keeps what was typed: the button that is pressed again sends the same request.
  pub handle_create-retry :
      (s : Dialog F) (message : Text)
      → (handle_create kind (create_answered kind (thrown message) (handle_create kind s).0)).1
        ≡ (handle_create kind s).1
  unfolding handle_create create_answered
  handle_create-retry s message = ground arith
