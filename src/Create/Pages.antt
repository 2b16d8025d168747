-- ===== src/Create/Pages.antt =====
-- web/routes_create.py: the page that takes a text, and the preview of what is read of it. The text of
-- an error is not modelled; the plan stands for its own JSON, which the form sends back.
use api_dashboard.Prelude.{
  ℕ, String, Bool, Option, none, some, List, length, ◌==◌, string_eq, if◌then◌else◌,
}
use api_dashboard.Session.{Session}
use api_dashboard.Python.{Python}
use api_dashboard.Scope.{Scope}
use api_dashboard.Store.Rows.{Store, Teacher}
use api_dashboard.Store.Queries.{teachers}
use api_dashboard.Dashboard.{Page, login_page, shown, scope_of}
use api_dashboard.Schedule.{ParsePlan}
use api_dashboard.Schedule.Names.{Similarity}
use api_dashboard.Schedule.Dates.{Raise, value, error}
use api_dashboard.Schedule.Times.{Scanner}
use api_dashboard.Schedule.Smart.{Claude, smart_parse}

-- What the page that takes a text is given; after a failure, the text again.
pub record CreateHome : Type 0 where
  pub ai_available : Bool
  pub teacher_count : ℕ
  pub schedule_text : Option String

-- What the preview is given.
pub record CreatePreview : Type 0 where
  pub plan : ParsePlan
  pub source_label : String
  pub all_teachers : List Teacher

pub data CreatePage : Type 0 where
  home : CreateHome → CreatePage
  preview : CreatePreview → CreatePage

-- SOURCE_LABELS.get(source, source)
abbrev pub label_of : String → String
label_of source =
    if source == "csv"
    then "표 (CSV/TSV) 자동 인식"
    else if source == "text-ai"
    then "자유 텍스트 · AI 파싱"
    else if source == "text-heuristic"
    then "자유 텍스트 · 규칙 기반 파싱"
    else source

module _ {R : Type 0} (key_set : Bool) where
  abbrev pub create_context : Store R → Scope → Option String → CreateHome
  create_context s scope text = record {
    ai_available = key_set;
    teacher_count = length (teachers s scope);
    schedule_text = text;
  }

  unfoldable pub create_home : Option Session → Store R → Page CreateHome
  create_home none s = login_page
  create_home (some session) s = shown (create_context s (scope_of session s) none)

module _ {R F : Type 0} (py : Python R) (claude : Claude R) (sim : Similarity F)
    (scanner : Scanner) where
  abbrev pub parsed_page : Store R → Scope → String → Raise ParsePlan → CreatePage
  parsed_page s scope text error = home (create_context claude.key_set s scope (some text))
  parsed_page s scope text (value plan) = preview (record {
    plan = plan;
    source_label = label_of plan.source_format;
    all_teachers = teachers s scope;
  })

  unfoldable pub create_parse : Option Session → Store R → String → ℕ → Page CreatePage
  unfolding smart_parse
  create_parse none s text today = login_page
  create_parse (some session) s text today =
      let scope = scope_of session s in
      shown (parsed_page s scope text (smart_parse py claude sim scanner (some s) text scope today))
