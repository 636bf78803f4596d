-- ===== src/Ui.antt =====
-- host/src/ui: the settings panel that the host serves to the user's browser, and its settings file.
pub mod Conf
pub mod Form
pub mod Panel
pub mod Actions
pub mod Http
