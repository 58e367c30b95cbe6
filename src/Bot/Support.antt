-- ===== src/Bot/Support.antt =====
-- backend/src/app/bot_transport/support_catalog.py
use Prim.Native.Nat.{suc}
use startprojectformillion.Base.{
  ℕ, String, ◌&&◌, List, [], ◌∷◌, ◌++◌, if◌then◌else◌, rstrip, str_nat, string_append, Option, none,
  some, no_text,
}
use startprojectformillion.Bot.Storefront.{StorefrontPublicConfig, is_falsy}

pub record FaqItem : Type 0 where
  pub key : String
  pub question : String
  pub answer : String

abbrev pub get_support_faq_items : List FaqItem
get_support_faq_items =
    record {
      key = "pricing";
      question = "Where do I see the price?";
      answer =
          "Plan details and the amount due appear at checkout before you pay. Use /plans for a short summary, then /buy when you are ready.";
    }
    ∷ record {
      key = "access";
      question = "How do I get access after paying?";
      answer =
          "Activation can take a short moment after checkout. Use /my_subscription to check status, then /get_access when it shows active.";
    }
    ∷ record {
      key = "refund";
      question = "What about refunds?";
      answer =
          "If you need a refund, reach out through the contact options when they are available. Each request is reviewed individually; outcomes depend on your situation.";
    }
    ∷ []

-- `"\n".join(lines)`
unfoldable pub join_lines : List String → String
join_lines [] = ""
join_lines (line ∷ []) = line
join_lines (line ∷ (next ∷ rest)) =
    string_append line (string_append "\n" (join_lines (next ∷ rest)))

-- The lines of the items, numbered from `i`.
unfoldable pub faq_lines : ℕ → List FaqItem → List String
unfolding str_nat
faq_lines i [] = []
faq_lines i (item ∷ items) =
    string_append (str_nat i) (string_append ". " item.question)
    ∷ (string_append "   " item.answer ∷ ("" ∷ faq_lines (suc i) items))

unfoldable pub build_support_menu_text : String
unfolding faq_lines join_lines rstrip
build_support_menu_text =
    let lines =
      ("Support & Help" ∷ ("" ∷ faq_lines 1 get_support_faq_items))
      ++ ("Use /support_contact to reach us." ∷ []) in
    string_append (rstrip (join_lines lines)) "\n"

-- A line that is there where its text is neither absent nor empty.
abbrev pub line_of : Option String → List String
line_of none = []
line_of (some s) = if no_text s then [] else s ∷ []

unfoldable pub build_support_contact_text : StorefrontPublicConfig → String
unfolding join_lines
build_support_contact_text cfg =
    if is_falsy cfg.support_handle && is_falsy cfg.support_url
    then "Support is currently unavailable. Please try again later."
    else join_lines
        (("Contact support" ∷ ("" ∷ [])) ++ (line_of cfg.support_handle ++ line_of cfg.support_url))
