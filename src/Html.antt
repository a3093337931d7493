-- ===== src/Html.antt =====
-- `HtmlTemplateService` (pdip/html/html_template_service.py), less its pages of queries.
pub mod Table
pub mod Joined
